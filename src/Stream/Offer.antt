-- ===== src/Stream/Offer.antt =====
-- The loop of `initWebRTCStream` that sends the offer until the back end is ready
-- (assets/web/static/js/app.js).
pub mod Ends
pub mod Ready
use ms_robot.Identity.{decimal}
use ms_robot.Base.{
  Str, ℕ, codes, Option, Bool, if◌then◌else◌, ◌++◌, some, suc, ltb, starts_with, none, ◌∷◌, true,
  ◌-◌, ◌+◌, zero, [], truthy, or_else, false, ◌==◌, ◌&&◌, ◌||◌,
}

-- `retryDelay / retryCheckInterval`: how often the state is looked at between two requests.
abbrev pub checks : ℕ
checks = 10

abbrev pub max_retries : ℕ
max_retries = 15

-- The answer to a request. `failed`: no response, or one whose body cannot be read, with the error's
-- message. `answered`: `response.ok`, its status, `data.ready`, `data.sessionId`, and the message of
-- the error when the answer cannot be set. `refused`: any other status, with the error of the body.
pub data Reply : Type 0 where
  failed : Str → Reply
  answered : ℕ → Bool → Str → Option Str → Reply
  refused : ℕ → Option Str → Reply

-- What a round comes to: the answer is set, with the session's id, or it is tried again, or an error.
pub data Round : Type 0 where
  ready : Str → Round
  again : Round
  raised : Str → Round

-- How `initWebRTCStream` goes on after the loop: it returns with a session or since the device is not
-- connecting any more, or goes to its `catch`; `exhausted` is the error after the loop.
pub data Outcome : Type 0 where
  established : Str → Outcome
  stopped : Outcome
  error_ : Str → Outcome
  exhausted : Outcome

-- `s.includes(t)`
unfoldable pub text_includes : Str → Str → Bool
text_includes [] t = starts_with [] t
text_includes (c ∷ s) t = if starts_with (c ∷ s) t then true else text_includes s t

-- The inner `catch`.
abbrev pub caught : ℕ → Str → Round
caught retries message =
    if ltb retries (max_retries - 1)
      && (text_includes message (codes "启动") || text_includes message (codes "500"))
    then again
    else raised message

abbrev pub set_answer : ℕ → Str → Option Str → Round
set_answer retries session_id none = ready session_id
set_answer retries session_id (some message) = caught retries message

-- The message of a status: the body's error, where it has one.
abbrev error_message : ℕ → Option Str → Str
error_message status none = codes "服务器响应错误: " ++ decimal status
error_message status (some message) = or_else message (codes "服务器响应错误: " ++ decimal status)

-- A round: the request's answer after so many retries.
unfoldable pub offer_round : ℕ → Reply → Round
offer_round retries (failed message) = caught retries message
offer_round retries (answered status false session_id error) =
    caught retries (codes "服务器响应错误: " ++ decimal status)
offer_round retries (answered status true session_id error) =
    if truthy session_id
    then set_answer retries session_id error
    else caught retries (codes "服务器未返回sessionId")
offer_round retries (refused status error) =
    if status == 500 && ltb retries (max_retries - 1)
    then again
    else caught retries (error_message status error)

-- The wait of 500 ms: whether all of the checks from number `time` on find the device connecting.
unfoldable pub wait : (ℕ → Bool) → ℕ → ℕ → Bool
wait connecting zero time = true
wait connecting (suc left) time =
    let rest = wait connecting left (time + 1) in if connecting time then rest else false

-- What follows a round: the loop returns, or goes on with `rest`.
abbrev pub after : Round → ℕ → Outcome × ℕ → Outcome × ℕ
after (ready session_id) requests rest = (established session_id, requests)
after (raised message) requests rest = (error_ message, requests)
after again requests rest = rest

module _ (reply : ℕ → Reply) (connecting : ℕ → Bool) where
  -- The loop, with `reply n` as the answer to request number `n` and `connecting t` as what check
  -- number `t` of the connection state finds. The result has the number of requests. `left` rounds
  -- are allowed.
  unfoldable pub offer_loop : ℕ → ℕ → ℕ → Outcome × ℕ
  offer_loop zero retries time = (exhausted, retries)
  offer_loop (suc left) retries time =
      let rest =
        if wait connecting checks (time + 1)
        then offer_loop left (retries + 1) (time + 1 + checks)
        else (stopped, retries + 1) in
      if connecting time
      then after (offer_round retries (reply retries)) (retries + 1) rest
      else (stopped, retries)

  -- `while (retries < maxRetries)` from its start.
  unfoldable pub send_offer : Outcome × ℕ
  unfolding offer_loop
  send_offer = offer_loop max_retries 0 0
