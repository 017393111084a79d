-- ===== src/Stream/Offer/Ready.antt =====
-- A back end that is starting is waited for.
use ms_robot.Stream.Offer.{
  offer_round, Reply, wait, failed, send_offer, offer_loop, answered, refused, again, established,
  ready, checks,
}
use ms_robot.Base.{
  refl, ℕ, Str, Bool, ◌≡◌, true, false, ◌<◌, suc, arith, ◌==◌, none, truthy, ◌+◌, zero, ap, sym,
  ◌∙◌,
}

-- The status 500, which the back end gives while its service starts.
abbrev pub is_busy : Reply → Bool
is_busy (failed message) = false
is_busy (answered status is_ready session_id error) = false
is_busy (refused status error) = status == 500

round-busy :
    (retries : ℕ) (r : Reply) → is_busy r ≡ true → retries < 14 → offer_round retries r ≡ again
unfolding offer_round
round-busy retries (failed message) h lt = absurd (ground arith)
round-busy retries (answered status is_ready session_id error) h lt = absurd (ground arith)
round-busy retries (refused status error) h lt = ground arith

round-ready :
    (retries status : ℕ) (s : Str) (r : Reply)
    → r ≡ answered status true s none
    → truthy s ≡ true
    → offer_round retries r ≡ ready s
unfolding offer_round
round-ready retries status s r e h = rw e (rw (offer_round, h) refl)

wait-always :
    (connecting : ℕ → Bool) (left time : ℕ)
    → ((t : ℕ) → connecting t ≡ true)
    → wait connecting left time ≡ true
unfolding wait
wait-always connecting zero time go = refl
wait-always connecting (suc left) time go =
    ground (arith, go time, wait-always connecting left (time + 1) go)

module _ (reply : ℕ → Reply) (connecting : ℕ → Bool) where
  loop-ready :
      (left k retries time status m : ℕ) (s : Str)
      → ((t : ℕ) → connecting t ≡ true)
      → ((n : ℕ) → n < m → is_busy (reply n) ≡ true)
      → reply m ≡ answered status true s none
      → truthy s ≡ true
      → left + retries ≡ 15
      → k < left
      → retries + k ≡ m
      → offer_loop reply connecting left retries time ≡ (established s, m + 1)
  unfolding offer_loop
  loop-ready zero k retries time status m s go busy ends some_id e lt here =
      absurd (omega (arith, lt))
  loop-ready (suc left) zero retries time status m s go busy ends some_id e lt here =
      let same : m ≡ retries = omega (arith, here) in
      let at_ : reply retries ≡ answered status true s none = ap reply (sym same) ∙ ends in
      rw (go time, round-ready retries status s (reply retries) at_ some_id, same) refl
  loop-ready (suc left) (suc k) retries time status m s go busy ends some_id e lt here =
      rw
        (
          go time,
          round-busy retries (reply retries) (busy retries (omega (arith, here)))
              (omega (arith, e, lt)),
          wait-always connecting checks (time + 1) go,
        )
        (loop-ready left k (retries + 1) (time + 1 + checks) status m s go busy ends some_id
          (omega (arith, e)) (omega (arith, lt)) (omega (arith, here)))

  -- A back end that answers the first `k` requests with the status 500 and the next one with a
  -- session's id is waited for, as long as `k` is below 15 and the device stays connecting: the loop
  -- ends with that session after `k + 1` requests.
  pub send_offer-ready :
      (k status : ℕ) (s : Str)
      → k < 15
      → ((t : ℕ) → connecting t ≡ true)
      → ((n : ℕ) → n < k → is_busy (reply n) ≡ true)
      → reply k ≡ answered status true s none
      → truthy s ≡ true
      → send_offer reply connecting ≡ (established s, k + 1)
  unfolding send_offer
  send_offer-ready k status s lt go busy ends some_id =
      loop-ready 15 k 0 0 status k s go busy ends some_id refl lt (omega arith)
