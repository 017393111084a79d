-- ===== src/Stream/Offer/Ends.antt =====
-- The loop of offers ends, and how.
use ms_robot.Stream.Offer.{
  Round, wait, Outcome, offer_round, Reply, caught, set_answer, offer_loop, exhausted, again,
  failed, answered, decimal, refused, checks, error_message, send_offer,
}
use ms_robot.Base.{
  refl, ℕ, Str, Option, Bool, ◌≡◌, false, ◌+◌, true, ◌≤◌, ◌<◌, ◌*◌, codes, arith, ◌++◌, some, suc,
  zero, none, ==_iff, ◌≢◌, ap,
}

abbrev is_again : Round → Bool
is_again again = true
is_again _ = false

caught-again :
    (retries : ℕ) (message : Str) → is_again (caught retries message) ≡ true → retries < 14
caught-again retries message h = ground arith

set_answer-again :
    (retries : ℕ) (s : Str) (error : Option Str)
    → is_again (set_answer retries s error) ≡ true
    → retries < 14
set_answer-again retries s none h = absurd (ground arith)
set_answer-again retries s (some message) h = caught-again retries message h

-- A round is tried again only while retries are left.
round-again : (retries : ℕ) (r : Reply) → is_again (offer_round retries r) ≡ true → retries < 14
unfolding offer_round
round-again retries (failed message) h = caught-again retries message h
round-again retries (answered status false s error) h =
    caught-again retries (codes "服务器响应错误: " ++ decimal status) h
round-again retries (answered status true s error) h =
    ground (arith, set_answer-again retries s error, caught-again retries (codes "服务器未返回sessionId"))
round-again retries (refused status error) h =
    ground (arith, caught-again retries (error_message status error))

abbrev pub is_exhausted : Outcome → Bool
is_exhausted exhausted = true
is_exhausted _ = false

-- All the checks of a wait that was not broken off lie before a check that fails.
wait-before :
    (connecting : ℕ → Bool) (left time t : ℕ)
    → connecting t ≡ false
    → time ≤ t
    → wait connecting left time ≡ true
    → time + left ≤ t
unfolding wait
wait-before connecting zero time t stop le h = omega (arith, le)
wait-before connecting (suc left) time t stop le h =
    ground (arith, wait-before connecting left (time + 1) t stop, ==_iff time t)

-- A check that finds the device connecting is another one than a check that fails.
check-ne :
    (connecting : ℕ → Bool) (time t : ℕ) → connecting t ≡ false → connecting time ≡ true → time ≢ t
check-ne connecting time t stop go e = ground (arith, ap connecting e)

module _ (reply : ℕ → Reply) (connecting : ℕ → Bool) where
  loop-ends :
      (left retries time : ℕ)
      → left + retries ≡ 15
      → 0 < left
      → (is_exhausted (offer_loop reply connecting left retries time).0 ≡ false)
        × ((offer_loop reply connecting left retries time).1 ≤ 15)
  unfolding offer_loop
  loop-ends zero retries time e h = absurd (omega arith)
  loop-ends (suc left) retries time e h =
      ground (
        arith,
        round-again retries (reply retries),
        loop-ends left (retries + 1) (time + 1 + checks),
      )

  loop-stops :
      (left retries time t : ℕ)
      → connecting t ≡ false
      → time ≡ 11 * retries
      → time ≤ t
      → 11 * (offer_loop reply connecting left retries time).1 ≤ t + 10
  unfolding offer_loop
  loop-stops zero retries time t stop e h = omega arith
  loop-stops (suc left) retries time t stop e h = ground (
    arith,
    check-ne connecting time t stop,
    wait-before connecting checks (time + 1) t stop,
    loop-stops left (retries + 1) (time + 1 + checks) t stop,
  )

  -- The loop of offers ends after at most 15 requests, and never by the error that
  -- stands behind it.
  pub send_offer-ends :
      (is_exhausted (send_offer reply connecting).0 ≡ false)
      × ((send_offer reply connecting).1 ≤ 15)
  unfolding send_offer
  send_offer-ends = loop-ends 15 0 0 refl (omega arith)

  -- When check number `t` of the connection state finds that the device is not connecting any more, no
  -- request is made after it: there are at most `(t + 10) / 11` requests, as many as the loop starts
  -- before that check, with 11 checks to a request.
  pub send_offer-stops :
      (t : ℕ) → connecting t ≡ false → 11 * (send_offer reply connecting).1 ≤ t + 10
  unfolding send_offer
  send_offer-stops t stop = loop-stops 15 0 0 t stop refl (omega arith)
