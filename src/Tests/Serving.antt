-- ===== src/Tests/Serving.antt =====
-- Examples of the HTTP handlers.
use v2ray_subscription_manag.Prelude.{◌≡◌, ◌≢◌, ◌⊎◌, refl, Bool, true, false, [], ◌∷◌, ◌++◌, some}
use v2ray_subscription_manag.Text.{split}
use v2ray_subscription_manag.Model.{RuntimeState}
use v2ray_subscription_manag.Tui.Actions.{RuntimeConfig, runtime_of}
use v2ray_subscription_manag.Server.{
  ok_status, served_uris, subscription_body, subscription_response, subscription_snapshot,
}
use v2ray_subscription_manag.Server.Guarded.{
  MayRead, subscription_response_decides, split-subscription_body,
}
use v2ray_subscription_manag.Tests.{results}
use v2ray_subscription_manag.Tests.Ranking.{idle}
use v2ray_subscription_manag.Tests.Settings.{settings}

-- On the local network, with a token.
abbrev shared : RuntimeConfig Bool
shared =
    runtime_of (record settings {
      sharing = record { enabled = true; require_token = true; token = "t0ken" };
    })

abbrev served : RuntimeState
served = record idle { ranked = results }

-- Another host asks with a wrong token.
subscription_response_decides_example :
    let config = shared in
    let answer = subscription_response (λ s. s) config false (some "guess") false in
    (((answer served config).status ≡ ok_status) × MayRead config false (some "guess"))
    ⊎ (((answer served config).status ≢ ok_status)
        × ¬ MayRead config false (some "guess")
        × ((other : RuntimeState) (later : RuntimeConfig Bool)
            → answer other later ≡ answer served config))
subscription_response_decides_example =
    subscription_response_decides (λ s. s) shared false (some "guess") false served shared

split-subscription_body_example :
    split 10 (subscription_body served (runtime_of settings))
    ≡ served_uris served (runtime_of settings).top_n ++ "" ∷ []
unfolding runtime_of
split-subscription_body_example =
    split-subscription_body served (runtime_of settings)
      ((refl, λ e. cc e), ((refl, λ e. cc e), tt))

snapshot_waits :
    subscription_snapshot ((record idle { ranked = [] }, 0) ∷ (served, 100) ∷ []) ≡ some served
unfolding subscription_snapshot
snapshot_waits = refl
