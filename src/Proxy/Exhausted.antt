-- ===== src/Proxy/Exhausted.antt =====
-- What failover leaves of the process when nothing answers.
use v2ray_subscription_manag.Prelude.{
  ◌≡◌, ◌≢◌, ℕ, refl, Bool, true, false, String, List, [], ◌∷◌, none, some, arith, keep, List-cases,
  any, Bool-cases, ◌+◌, inl, inr,
}
use v2ray_subscription_manag.Model.{RankedConfig}
use v2ray_subscription_manag.Proxy.{
  ManagedProcess, PersistentProxy, World, alive, is_process_alive, is_healthy, start_with_config,
  health_check, tick, answers, fallback_urls,
}
use v2ray_subscription_manag.Proxy.Failover.{is_other, is_fresh, try_config, try_configs, failover}

-- A process is left.
abbrev pub IsLeft : PersistentProxy → Type 0
IsLeft p = (m : ManagedProcess) × (p.process ≡ some m)

module _ (w : World) (listening : Bool) (converts : (uri : String) → w.convert uri ≡ true)
    (starts : (moment : ℕ) → w.start moment ≡ none) (lives : (moment : ℕ) → w.wait moment ≡ alive)
    (silent : (moment : ℕ) (url : String) → w.get moment url ≡ none) where
  is_process_alive-true :
      (p : PersistentProxy) (m : ManagedProcess)
      → p.process ≡ some m
      → is_process_alive w p ≡ (true, tick w p)
  unfolding is_process_alive
  is_process_alive-true p m e = ground (arith, lives p.moment, e)

  answers-false : (moment : ℕ) (url : String) → answers (w.get moment) url ≡ false
  answers-false moment url = rw (answers, silent moment url) refl

  any-answers-false : (moment : ℕ) (urls : List String) → any (answers (w.get moment)) urls ≡ false
  any-answers-false moment [] = refl
  any-answers-false moment (url ∷ urls) =
      rw (answers-false moment url) (any-answers-false moment urls)

  is_healthy-false : (moment : ℕ) (url : String) → is_healthy (w.get moment) url ≡ false
  unfolding is_healthy
  is_healthy-false moment url =
      rw (is_healthy, silent moment url) (any-answers-false moment fallback_urls)

  health_check-IsLeft :
      (p : PersistentProxy)
      → IsLeft p
      → ((health_check w p).0 ≡ false) × IsLeft (health_check w p).1
  unfolding health_check
  health_check-IsLeft p (m, e) =
      rw (health_check, is_process_alive-true p m e, is_healthy-false)
        (elim (Bool-cases (w.client (p.moment + 1))) [
          | inl c ↦ rw c (refl, (m, e))
          | inr c ↦ rw c (refl, (m, e))
        ])

  start_with_config-IsLeft :
      (c : RankedConfig) (p : PersistentProxy)
      → ((start_with_config w listening c p).0 ≡ none)
        × IsLeft (start_with_config w listening c p).1
  unfolding start_with_config
  start_with_config-IsLeft c p = rw (start_with_config, converts, starts) (refl, (_, refl))

  try_config-IsLeft :
      (c : RankedConfig) (p : PersistentProxy)
      → ((try_config w listening c p).0 ≡ false) × IsLeft (try_config w listening c p).1
  unfolding try_config
  try_config-IsLeft c p =
      let (fine, left) = start_with_config-IsLeft c p in
      let (silent', left') = health_check-IsLeft _ left in rw (try_config, fine) (silent', left')

  try_configs-IsLeft :
      (cs : List RankedConfig) (c : RankedConfig) (p : PersistentProxy)
      → let (done, q) = try_configs w listening (c ∷ cs) p in
        (done ≡ false) × (q.state.running ≡ false) × IsLeft q
  unfolding try_configs
  try_configs-IsLeft [] c p =
      let (failed, left) = try_config-IsLeft c p in rw (try_configs, failed) (refl, refl, left)
  try_configs-IsLeft (d ∷ cs) c p =
      let (failed, left) = try_config-IsLeft c p in
      rw (try_configs, failed) (try_configs-IsLeft cs d _)

  -- With share links that convert, starts that succeed, processes that live and no answer to any
  -- health check, and with some config to change to: failover reports an error and the proxy is
  -- marked as not running, but a process is left.
  pub failover-IsLeft :
      (ranked : List RankedConfig) (p : PersistentProxy)
      → keep (is_other p.state) ranked ≢ []
      → let (done, q) = failover w listening ranked p in
        (done ≡ false) × (q.state.running ≡ false) × IsLeft q
  unfolding failover
  failover-IsLeft ranked p others = elim (List-cases (keep (is_fresh p.state) ranked)) [
    | inl e ↦ elim (List-cases (keep (is_other p.state) ranked)) [
      | inl none_left ↦ absurd (others none_left)
      | inr (c, cs, f) ↦ rw (failover, e, f) (try_configs-IsLeft cs c _)
    ]
    | inr (c, cs, e) ↦ rw (failover, e) (try_configs-IsLeft cs c _)
  ]
