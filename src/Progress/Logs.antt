-- ===== src/Progress/Logs.antt =====
-- The logs of the runtime state.
use v2ray_subscription_manag.Prelude.{
  ℕ, suc, ◌+◌, ◌-◌, ◌≤◌, ◌≡◌, refl, ◌∙◌, String, List, [], ◌∷◌, ◌++◌, arith, append_assoc,
  append-nil, ltb→lt, length, length-append, length-drop, drop, ltb, Bool-cases, inl, inr, ap, sym,
}
use v2ray_subscription_manag.Progress.{max_tui_logs, push_log}

-- The messages in turn.
abbrev pub push_logs : List String → List String → List String
push_logs logs [] = logs
push_logs logs (m ∷ ms) = push_logs (push_log logs m) ms

abbrev last : ℕ → List String → List String
last n xs = drop (length xs - n) xs

drop-append : (n : ℕ) (xs ys : List String) → n ≤ length xs → drop n (xs ++ ys) ≡ drop n xs ++ ys
drop-append ℕ.zero xs ys h = refl
drop-append (suc n) [] ys h = absurd (omega arith)
drop-append (suc n) (x ∷ xs) ys h = drop-append n xs ys (omega arith)

drop-nil : (n : ℕ) → drop {A = String} n [] ≡ []
drop-nil ℕ.zero = refl
drop-nil (suc n) = refl

drop-drop : (m n : ℕ) (xs : List String) → drop m (drop n xs) ≡ drop (n + m) xs
drop-drop m ℕ.zero xs = let z : 0 + m ≡ m = omega arith in rw z
drop-drop m (suc n) [] = drop-nil m ∙ sym (drop-nil (suc n + m))
drop-drop m (suc n) (x ∷ xs) =
    let z : suc n + m ≡ suc (n + m) = omega arith in rw z (drop-drop m n xs)

-- To keep the last entries twice is to keep them once.
last-append : (n : ℕ) (xs ys : List String) → last n (last n xs ++ ys) ≡ last n (xs ++ ys)
last-append n xs ys = elim (Bool-cases (ltb n (length xs))) [
  | inr few ↦ let z : length xs - n ≡ 0 = ground arith in rw z
  | inl many ↦
      let cut = length xs - n in
      let shorter = length-drop cut xs in
      let split = drop-append cut xs ys (omega arith) in
      let count : length (last n xs ++ ys) - n ≡ length ys =
        omega (arith, length-append (last n xs) ys, shorter, ltb→lt n (length xs) many) in
      let count' : length (xs ++ ys) - n ≡ cut + length ys =
        omega (arith, length-append xs ys, ltb→lt n (length xs) many) in
      rw count (rw count' (rw (← split) (drop-drop (length ys) cut (xs ++ ys))))
]

push_log-last :
    (logs : List String) (m : String) → push_log logs m ≡ last max_tui_logs (logs ++ m ∷ [])
unfolding push_log
push_log-last logs m = elim (Bool-cases (ltb max_tui_logs (length (logs ++ m ∷ [])))) [
  | inl e ↦ rw e
  | inr e ↦ let z : length (logs ++ m ∷ []) - max_tui_logs ≡ 0 = ground arith in rw (e, z)
]

push_logs-last :
    (logs ms : List String) → push_logs (last max_tui_logs logs) ms ≡ last max_tui_logs (logs ++ ms)
push_logs-last logs [] = rw (append-nil logs)
push_logs-last logs (m ∷ ms) =
    ap (λ l. push_logs l ms)
      (push_log-last (last max_tui_logs logs) m ∙ last-append max_tui_logs logs (m ∷ []))
    ∙ push_logs-last (logs ++ m ∷ []) ms
    ∙ ap (last max_tui_logs) (append_assoc logs (m ∷ []) ms)

-- After any messages a log holds the last 512 of them in order, and never more.
pub push_logs_lem :
    (ms : List String)
    → (push_logs [] ms ≡ drop (length ms - max_tui_logs) ms)
      × (length (push_logs [] ms) ≤ max_tui_logs)
push_logs_lem ms =
    let e = push_logs-last [] ms in
    (e, omega (arith, ap length e, length-drop (length ms - max_tui_logs) ms))
