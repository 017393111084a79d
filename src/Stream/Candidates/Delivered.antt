-- ===== src/Stream/Candidates/Delivered.antt =====
-- Every local ICE candidate is sent exactly once: in a bag, where the order is forgotten.
use ms_robot.Stream.Candidates.{
  send_next, Trickle, send_ice_candidate, on_named, on_ice_candidate, in_turn, named, trickle,
  Event, trickle_all, found, all_in_turn, candidate, request_answered, fresh,
}
use mathlib.Core.List.{Perm, perm_middle, append_assoc, append-nil, ◌∷◌}
use mathlib.Core.List.Perm
use ms_robot.Base.{
  refl, List, truthy, Str, Bool, not, ◌≡◌, ◌++◌, [], ap, ◌||◌, true, ◌&&◌, false, arith, Bool-cases,
  inl, some, ◌∙◌, inr, none,
}

module _ {C : Type 0} where
  abbrev pub candidates : List (C × Str) → List C
  candidates [] = []
  candidates ((c, s) ∷ l) = c ∷ candidates l

  -- What is sent, on its way and kept.
  abbrev all_of : Trickle C → List C
  all_of t = candidates t.sent ++ (t.cached ++ t.pending)

  abbrev pub is_nil : List C → Bool
  is_nil [] = true
  is_nil (c ∷ l) = false

  abbrev pub all_addressed : List (C × Str) → Bool
  all_addressed [] = true
  all_addressed ((c, s) ∷ l) = truthy s && all_addressed l

  -- Candidates are on their way only when the session is named, and kept only before.
  record IsOrderly (t : Trickle C) : Type 0 where
    kept : not (truthy t.session_id) || is_nil t.pending ≡ true
    under_way : truthy t.session_id || is_nil t.cached ≡ true
    addressed : all_addressed t.sent ≡ true

  candidates-append :
      (l : List (C × Str)) (c : C) (s : Str)
      → candidates (l ++ (c, s) ∷ []) ≡ candidates l ++ c ∷ []
  candidates-append [] c s = refl
  candidates-append ((d, r) ∷ l) c s = ap (d ∷◌) (candidates-append l c s)

  all_addressed-append :
      (l : List (C × Str)) (c : C) (s : Str)
      → truthy s ≡ true
      → all_addressed l ≡ true
      → all_addressed (l ++ (c, s) ∷ []) ≡ true
  all_addressed-append [] c s h a = ground arith
  all_addressed-append ((d, r) ∷ l) c s h a = ground (arith, all_addressed-append l c s h)

  -- A candidate that is sent moves from the front of what is left to the end of what is sent.
  all_of-send :
      (sent : List (C × Str)) (c : C) (s : Str) (left : List C)
      → candidates (sent ++ (c, s) ∷ []) ++ left ≡ candidates sent ++ c ∷ left
  all_of-send sent c s left =
      rw (candidates-append sent c s) (append_assoc (candidates sent) (c ∷ []) left)

  sent-IsOrderly :
      (t : Trickle C) (c : C)
      → truthy t.session_id ≡ true
      → IsOrderly t
      → IsOrderly (send_ice_candidate t c)
  unfolding send_ice_candidate
  sent-IsOrderly t c named_ ok =
      rw (send_ice_candidate, named_)
        (record {
          kept = ok.kept;
          under_way = ok.under_way;
          addressed = all_addressed-append t.sent c t.session_id named_ ok.addressed;
        })

  sent-all_of :
      (t : Trickle C) (c : C)
      → truthy t.session_id ≡ true
      → all_of (send_ice_candidate t c) ≡ candidates t.sent ++ c ∷ (t.cached ++ t.pending)
  unfolding send_ice_candidate
  sent-all_of t c named_ =
      rw (send_ice_candidate, named_) (all_of-send t.sent c t.session_id (t.cached ++ t.pending))

  next-case :
      (t : Trickle C) (l : List C)
      → t.cached ≡ l
      → IsOrderly t
      → IsOrderly (send_next t) × (all_of (send_next t) ≡ candidates t.sent ++ (l ++ t.pending))
  unfolding send_next
  next-case t [] e ok = rw (send_next, e) (ok, ap (λ l. candidates t.sent ++ (l ++ t.pending)) e)
  next-case t (c ∷ cs) e ok =
      let named_ : truthy t.session_id ≡ true = ground (arith, ok.under_way, e) in
      let rest : Trickle C = record t { cached = cs } in
      let ok_ : IsOrderly rest = record {
        kept = ok.kept;
        under_way = ground (arith, named_);
        addressed = ok.addressed;
      } in
      rw (send_next, e) (sent-IsOrderly rest c named_ ok_, sent-all_of rest c named_)

  next-lem :
      (t : Trickle C) → IsOrderly t → IsOrderly (send_next t) × (all_of (send_next t) ≡ all_of t)
  next-lem t ok = next-case t t.cached refl ok

  named-lem :
      (t : Trickle C) (s : Str)
      → in_turn t.cached (named s) ≡ true
      → IsOrderly t
      → IsOrderly (on_named t s) × (all_of (on_named t s) ≡ all_of t)
  unfolding on_named
  named-lem t s turn ok = elim (Bool-cases (truthy s)) [
    | inl e ↦
        let full : Trickle C = record t {
          session_id = s;
          cached = t.cached ++ t.pending;
          pending = [];
        } in
        let ok_ : IsOrderly full = record {
          kept = ground arith;
          under_way = ground (arith, e);
          addressed = ok.addressed;
        } in
        let n = next-lem full ok_ in
        rw (on_named, e)
          (n.0, n.1 ∙ ap (λ l. candidates t.sent ++ l) (append-nil (t.cached ++ t.pending)))
    | inr e ↦
        rw (on_named, e)
          (record { kept = refl; under_way = ground (arith, turn); addressed = ok.addressed }, refl)
  ]

  kept-perm :
      (t : Trickle C) (c : C)
      → Perm (candidates t.sent ++ (t.cached ++ (t.pending ++ c ∷ []))) (c ∷ all_of t)
  kept-perm t c =
      rw
        (
          ← append_assoc t.cached t.pending (c ∷ []),
          ← append_assoc (candidates t.sent) (t.cached ++ t.pending) (c ∷ []),
        )
        (Perm.trans (perm_middle (all_of t) [])
          (rw (append-nil (all_of t)) (Perm.refl (c ∷ all_of t))))

  candidate-lem :
      (t : Trickle C) (c : C)
      → IsOrderly t
      → IsOrderly (on_ice_candidate t (some c))
        × Perm (all_of (on_ice_candidate t (some c))) (c ∷ all_of t)
  unfolding on_ice_candidate
  candidate-lem t c ok = elim (Bool-cases (truthy t.session_id)) [
    | inl e ↦
        rw (on_ice_candidate, e)
          (
            sent-IsOrderly t c e ok,
            rw (sent-all_of t c e) (perm_middle (candidates t.sent) (t.cached ++ t.pending)),
          )
    | inr e ↦
        rw (on_ice_candidate, e)
          (
            record { kept = ground (arith, e); under_way = ok.under_way; addressed = ok.addressed },
            kept-perm t c,
          )
  ]

  trickle-lem :
      (t : Trickle C) (e : Event C)
      → in_turn t.cached e ≡ true
      → IsOrderly t
      → IsOrderly (trickle t e) × Perm (all_of (trickle t e)) (found (e ∷ []) ++ all_of t)
  unfolding trickle on_ice_candidate
  trickle-lem t (candidate none) turn ok = (ok, Perm.refl (all_of t))
  trickle-lem t (candidate (some c)) turn ok = candidate-lem t c ok
  trickle-lem t (named s) turn ok =
      let n = named-lem t s turn ok in (n.0, rw n.1 (Perm.refl (all_of t)))
  trickle-lem t request_answered turn ok =
      let n = next-lem t ok in (n.0, rw n.1 (Perm.refl (all_of t)))

  found-perm :
      (e : Event C) (es : List (Event C)) (l : List C)
      → Perm (found es ++ (found (e ∷ []) ++ l)) (found (e ∷ es) ++ l)
  found-perm (candidate none) es l = Perm.refl (found es ++ l)
  found-perm (candidate (some c)) es l = perm_middle (found es) l
  found-perm (named s) es l = Perm.refl (found es ++ l)
  found-perm request_answered es l = Perm.refl (found es ++ l)

  trickle_all-lem :
      (t : Trickle C) (es : List (Event C))
      → all_in_turn t es ≡ true
      → IsOrderly t
      → IsOrderly (trickle_all t es) × Perm (all_of (trickle_all t es)) (found es ++ all_of t)
  unfolding trickle_all
  trickle_all-lem t [] turn ok = (ok, Perm.refl (all_of t))
  trickle_all-lem t (e ∷ es) turn ok =
      let step = trickle-lem t e (ground (arith, turn)) ok in
      let rest = trickle_all-lem (trickle t e) es (ground (arith, turn)) step.0 in
      (
        rest.0,
        Perm.trans rest.1
            (Perm.trans (Perm.append_left (found es) step.1) (found-perm e es (all_of t))),
      )

  -- Whatever candidates the browser finds and whenever the back end names the session, as long as it
  -- is not named again before the kept candidates are sent: those sent, those on their way and those
  -- kept are together a permutation of those found, so that none is lost or sent twice; every request
  -- carries a session's id; once the session is named none is kept, and before none is on its way.
  pub trickle_all-delivered :
      (es : List (Event C))
      → all_in_turn fresh es ≡ true
      → Perm
          (candidates (trickle_all fresh es).sent
            ++ ((trickle_all fresh es).cached ++ (trickle_all fresh es).pending))
          (found es)
        × (all_addressed (trickle_all fresh es).sent ≡ true)
        × (not (truthy (trickle_all fresh es).session_id) || is_nil (trickle_all fresh es).pending
            ≡ true)
        × (truthy (trickle_all fresh es).session_id || is_nil (trickle_all fresh es).cached ≡ true)
  trickle_all-delivered es turn =
      let start_ : IsOrderly fresh = record { kept = refl; under_way = refl; addressed = refl } in
      let r = trickle_all-lem fresh es turn start_ in
      (rw (← append-nil (found es)) r.1, r.0.addressed, r.0.kept, r.0.under_way)
