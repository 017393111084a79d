-- ===== src/Stream/Candidates.antt =====
-- The local ICE candidates of `initWebRTCStream` (assets/web/static/js/app.js): they are kept until
-- the back end has named the session, and sent to it then.
pub mod Delivered
use ms_robot.Base.{
  Option, Str, if◌then◌else◌, [], List, some, truthy, ◌∷◌, Bool, ◌++◌, none, true, false, ◌&&◌,
}

-- `pendingLocalIceCandidates`, `webrtcSessionId`, the list `cachedCandidates` as far as it is not sent,
-- and the requests made: the candidate and the session's id.
pub record Trickle (C : Type 0) : Type 0 where
  pub pending : List C
  pub session_id : Str
  pub cached : List C
  pub sent : List (C × Str)

-- The browser finds a candidate (or reports the end by none), the back end names a session, or the
-- loop over `cachedCandidates` goes on when a request is answered.
pub data Event (C : Type 0) : Type 0 where
  candidate : Option C → Event C
  named : Str → Event C
  request_answered : Event C

module _ {C : Type 0} where
  abbrev pub fresh : Trickle C
  fresh = record { pending = []; session_id = []; cached = []; sent = [] }

  -- `sendIceCandidate`
  unfoldable pub send_ice_candidate : Trickle C → C → Trickle C
  send_ice_candidate t c =
      if truthy t.session_id then record t { sent = t.sent ++ (c, t.session_id) ∷ [] } else t

  -- The next round of the loop over `cachedCandidates`.
  unfoldable pub send_next : Trickle C → Trickle C
  send_next t = elim t.cached [ [] ↦ t | c ∷ cs ↦ send_ice_candidate (record t { cached = cs }) c ]

  -- The code behind `data.ready`: without an id nothing is sent, and an error raised. `splice` takes
  -- all candidates out, and the loop sends the first.
  unfoldable pub on_named : Trickle C → Str → Trickle C
  on_named t session_id =
      if truthy session_id
      then send_next
          (record t { session_id = session_id; cached = t.cached ++ t.pending; pending = [] })
      else record t { session_id = [] }

  -- `pc.onicecandidate`
  unfoldable pub on_ice_candidate : Trickle C → Option C → Trickle C
  on_ice_candidate t none = t
  on_ice_candidate t (some c) =
      if truthy t.session_id
      then send_ice_candidate t c
      else record t { pending = t.pending ++ c ∷ [] }

  unfoldable pub trickle : Trickle C → Event C → Trickle C
  trickle t (candidate c) = on_ice_candidate t c
  trickle t (named session_id) = on_named t session_id
  trickle t request_answered = send_next t

  unfoldable pub trickle_all : Trickle C → List (Event C) → Trickle C
  trickle_all t [] = t
  trickle_all t (e ∷ es) = trickle_all (trickle t e) es

  -- An offer is sent again only when the loop over `cachedCandidates` is done.
  abbrev pub in_turn : List C → Event C → Bool
  in_turn [] e = true
  in_turn (c ∷ cs) (named session_id) = false
  in_turn (c ∷ cs) _ = true

  abbrev pub all_in_turn : Trickle C → List (Event C) → Bool
  all_in_turn t [] = true
  all_in_turn t (e ∷ es) = in_turn t.cached e && all_in_turn (trickle t e) es

  -- The candidates that the browser found.
  abbrev pub found : List (Event C) → List C
  found [] = []
  found (candidate (some c) ∷ es) = c ∷ found es
  found (_ ∷ es) = found es
