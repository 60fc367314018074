-- ===== src/Tui/Sound/Texts.antt =====
-- Sources whose texts are kept or replaced by texts that are not blank.
use v2ray_subscription_manag.Prelude.{
  ℕ, zero, suc, ◌≡◌, ◌≢◌, sym, ◌∙◌, false, String, List, [], ◌∷◌, All,
}
use v2ray_subscription_manag.Text.{trim, is_empty_text}
use v2ray_subscription_manag.Text.Trim.{trim_idem}
use v2ray_subscription_manag.Config.{SubscriptionSource}
use v2ray_subscription_manag.Config.Valid.{IsNamed, text_of}
use v2ray_subscription_manag.Tui.{change_at, without_at}

pub trim-full : (s : String) → is_empty_text (trim s) ≡ false → trim (trim s) ≢ ""
trim-full s h e = text_of (trim s) h (sym (trim_idem s) ∙ e)

pub All-change_at :
    (f : SubscriptionSource → SubscriptionSource) (i : ℕ) (xs : List SubscriptionSource)
    → ((x : SubscriptionSource) → IsNamed x → IsNamed (f x))
    → All IsNamed xs
    → All IsNamed (change_at f i xs)
All-change_at f i [] k h = tt
All-change_at f zero (x ∷ xs) k (hx, h) = (k x hx, h)
All-change_at f (suc i) (x ∷ xs) k (hx, h) = (hx, All-change_at f i xs k h)

pub All-without_at :
    (i : ℕ) (xs : List SubscriptionSource) → All IsNamed xs → All IsNamed (without_at i xs)
All-without_at i [] h = tt
All-without_at zero (x ∷ xs) (hx, h) = h
All-without_at (suc i) (x ∷ xs) (hx, h) = (hx, All-without_at i xs h)
