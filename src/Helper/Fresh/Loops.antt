-- ===== src/Helper/Fresh/Loops.antt =====
-- The loops of `_prune_receipts` in helper_service.py.
use nixos_control_manager.Prelude.{
  ℕ, String, ◌≡◌, sym, ◌<◌, ◌⊎◌, inl, inr, Bool-cases, Option, none, some, [], ◌∷◌, arith, ◌==◌,
  eq_iff, if◌then◌else◌,
}
use nixos_control_manager.Prelude.Dict.{Dict, lookup, erase, lookup-erase}
use nixos_control_manager.Protocol.{Result, ok, err}
use nixos_control_manager.Helper.Target.{Target}
use nixos_control_manager.Helper.State.{
  Dispatcher, World, Event, Call, Pending, PendingTestActivation, call, gets,
}
use nixos_control_manager.Helper.Prune.{discard, prune_entries, prune_tests}
use nixos_control_manager.Helper.Yields.{
  Yields, Returned, Yields-pure, Yields-gets, Yields-if, Yields-modify, Yields-bind,
}

module _ {V : Type 0} (expires_at : V → ℕ) (now : ℕ) where
  -- No entry of the table has expired.
  abbrev pub Fresh : Dict V → Type 0
  Fresh table = (r : String) (p : V) → lookup r table ≡ some p → now < expires_at p

  abbrev pub In : String → V → Dict V → Type 0
  In r p [] = ⊥
  In r p ((s, q) ∷ entries) = ((r ≡ s) × (p ≡ q)) ⊎ In r p entries

  -- An entry of the table has not expired, or is still to be looked at.
  abbrev pub Left : Dict V → Dict V → Type 0
  Left table entries =
      (r : String) (p : V) → lookup r table ≡ some p → (now < expires_at p) ⊎ In r p entries

  Left-all : (entries : Dict V) (r : String) (p : V) → lookup r entries ≡ some p → In r p entries
  unfolding lookup
  Left-all [] r p h = cc
  Left-all ((s, q) ∷ entries) r p h = elim (Bool-cases (s == r)) [
    | inl e ↦ inl (sym ((eq_iff s r).0 e), ground arith)
    | inr n ↦ inr (Left-all entries r p (ground arith))
  ]

  Left-erase :
      (table : Dict V) (r : String) (p : V) (entries : Dict V)
      → Left table ((r, p) ∷ entries)
      → Left (erase r table) entries
  Left-erase table r p entries h s q e =
      let found : (if r == s then none else lookup s table) ≡ some q =
        rw (lookup-erase r s table) at e in
      elim (Bool-cases (r == s)) [
        | inl same ↦ ground arith
        | inr other ↦ elim (h s q (ground arith)) [
          | inl fresh ↦ inl fresh
          | inr (inl (same, _)) ↦ ground (arith, eq_iff r s)
          | inr (inr rest) ↦ inr rest
        ]
      ]

  Left-keep :
      (table : Dict V) (r : String) (p : V) (entries : Dict V)
      → now < expires_at p
      → Left table ((r, p) ∷ entries)
      → Left table entries
  Left-keep table r p entries fresh h s q e = elim (h s q e) [
    | inl ok_ ↦ inl ok_
    | inr (inl (_, same)) ↦ inl (rw same fresh)
    | inr (inr rest) ↦ inr rest
  ]

module _ (G : World → Type 0) where
  Returned-any : {A : Type 0} (r : Result A) (w : World) → G w → Returned (λ _. G) (r, w)
  Returned-any (ok a) w g = g
  Returned-any (err e) w g = tt

module _ (d : Dispatcher) where
  -- A predicate that new events do not touch.
  abbrev pub Quiet : (World → Type 0) → Type 0
  Quiet G = (e : Event) (w : World) → G w → G (record w { log = e ∷ w.log })

  discard-Yields :
      (G : World → Type 0)
      → Quiet G
      → (t : Option Target) (c : Target → Call) → Yields G (λ _. G) (discard d t c)
  unfolding discard call
  discard-Yields G quiet none c = Yields-pure _ λ w g. g
  discard-Yields G quiet (some t) c =
      Yields-if _ _ _
        (λ _.
          Yields-bind {R = λ _. G} _ _ (record { at = λ w g. Returned-any G _ _ (quiet _ w g) })
            λ _. Yields-pure _ λ w g. g)
        (λ _. Yields-pure _ λ w g. g)

  module _ {P : Type 0} (now : ℕ) (drop : String → World → World) (table : World → Dict (Pending P))
      (F : World → Type 0)
      (same : (e : Event) (w : World) → table (record w { log = e ∷ w.log }) ≡ table w)
      (dropped : (r : String) (w : World) → table (drop r w) ≡ erase r (table w)) (quiet : Quiet F)
      (kept : (r : String) (w : World) → F w → F (drop r w)) where
    -- The loop over one table leaves no expired entry in it, and the other tables as they were.
    pub prune_entries-Fresh :
        (target_of : P → String) (c : Target → P → ℕ → Call) (entries : Dict (Pending P))
        → Yields
            (λ w. F w × Left (λ p. p.expires_at) now (table w) entries)
            (λ _ w. F w × Fresh (λ p. p.expires_at) now (table w))
            (prune_entries d now drop target_of c entries)
    unfolding prune_entries
    prune_entries-Fresh target_of c [] =
        Yields-pure _ λ w q. (q.0, λ r p e. elim (q.1 r p e) [ inl f ↦ f | inr x ↦ absurd x ])
    prune_entries-Fresh target_of c ((receipt, p) ∷ entries) =
        let G : World → Type 0 = λ w. F w × Left (λ p. p.expires_at) now (table w) entries in
        Yields-bind {R = λ _. G} _ _
          (Yields-if _ _ _
            (λ _.
              Yields-bind {R = λ _. G} _ _
                (Yields-modify _ λ w q. (
                  kept receipt w q.0,
                  rw (dropped receipt w)
                      (Left-erase (λ p. p.expires_at) now (table w) receipt p entries q.1),
                ))
                λ _. discard-Yields G (λ e w q. (quiet e w q.0, rw (same e w) q.1)) _ _)
            (λ fresh. Yields-pure _ λ w q. (
              q.0,
              Left-keep (λ p. p.expires_at) now (table w) receipt p entries (ground arith) q.1,
            )))
          λ _. prune_entries-Fresh target_of c entries

  pub prune_tests-Fresh :
      (now : ℕ) (F : World → Type 0)
      → ((r : String) (w : World) → F w → F (record w { pending_tests = erase r w.pending_tests }))
      → (entries : Dict PendingTestActivation)
      → Yields
          (λ w. F w × Left (λ p. p.expires_at) now w.pending_tests entries)
          (λ _ w. F w × Fresh (λ p. p.expires_at) now w.pending_tests)
          (prune_tests d now entries)
  unfolding prune_tests
  prune_tests-Fresh now F kept [] =
      Yields-pure _ λ w q. (q.0, λ r p e. elim (q.1 r p e) [ inl f ↦ f | inr x ↦ absurd x ])
  prune_tests-Fresh now F kept ((receipt, p) ∷ entries) =
      Yields-bind {R = λ _ w. F w × Left (λ p. p.expires_at) now w.pending_tests entries} _ _
        (Yields-if _ _ _
          (λ _. Yields-modify _ λ w q. (
            kept receipt w q.0,
            Left-erase (λ p. p.expires_at) now w.pending_tests receipt p entries q.1,
          ))
          (λ fresh. Yields-pure _ λ w q. (
            q.0,
            Left-keep (λ p. p.expires_at) now w.pending_tests receipt p entries (ground arith) q.1,
          )))
        λ _. prune_tests-Fresh now F kept entries

  -- The table of an attribute is read, as the list of what is still to be looked at.
  pub snapshot-Left :
      {V : Type 0} (expires_at : V → ℕ) (now : ℕ) (F : World → Type 0) (table : World → Dict V)
      → Yields F (λ entries w. F w × Left expires_at now (table w) entries) (gets table)
  snapshot-Left expires_at now F table =
      Yields-gets table λ w f. (f, λ r p e. inr (Left-all expires_at now (table w) r p e))
