-- ===== src/Transaction/Separate.antt =====
-- Plans of transaction.py whose changes do not get in each other's way.
use nixos_control_manager.Prelude.{
  ℕ, suc, String, Bool, true, ◌&&◌, ◌≡◌, refl, subst, ap, ◌∙◌, ◌⊎◌, inl, inr, List, [], ◌∷◌, map,
  all, All, All-of_all, and_elim,
}
use nixos_control_manager.Transaction.State.{Change, Entry}
use nixos_control_manager.Transaction.Host.{Host}
use nixos_control_manager.Transaction.Apply.{Planned, planned_entry, plan_from}
use nixos_control_manager.Transaction.Focus.{is_away, is_away_from_itself, blank, Spotted}
use nixos_control_manager.Transaction.PreparesOthers.{IsOther, Chosen}

-- An element of a list.
abbrev pub Among : {T : Type 0} → T → List T → Type 0
Among x [] = ⊥
Among x (y ∷ ys) = (y ≡ x) ⊎ Among x ys

abbrev apart : Host → String → Entry → Planned → Bool
apart h id e o = is_away h id e o.entry && is_away h id o.entry e

-- No target, stage, copy or backup of one change is that of another.
unfoldable pub separate : Host → String → List Planned → Bool
separate h id [] = true
separate h id (p ∷ ps) =
    is_away_from_itself h id p.entry && all (apart h id p.entry) ps && separate h id ps

All-Among : {T : Type 0} (P : T → Type 0) (x : T) (ys : List T) → All P ys → Among x ys → P x
All-Among P x [] a m = elim m [ ]
All-Among P x (y ∷ ys) a (inl e) = subst P e a.0
All-Among P x (y ∷ ys) a (inr m) = All-Among P x ys a.1 m

abbrev IsPlanned : Host → String → Planned → Type 0
IsPlanned h id p = p.entry ≡ planned_entry h id p.index p.change

module _ (h : Host) (id : String) where
  pub plan_from-IsPlanned : (i : ℕ) (cs : List Change) → All (IsPlanned h id) (plan_from h id i cs)
  unfolding plan_from
  plan_from-IsPlanned i [] = tt
  plan_from-IsPlanned i (c ∷ cs) = (refl, plan_from-IsPlanned (suc i) cs)

  pub Among-IsPlanned :
      (p : Planned) (cs : List Change)
      → Among p (plan_from h id 0 cs)
      → p.entry ≡ planned_entry h id p.index p.change
  Among-IsPlanned p cs m =
      All-Among (IsPlanned h id) p (plan_from h id 0 cs) (plan_from-IsPlanned 0 cs) m

  pub Among-change :
      (p : Planned) (i : ℕ) (cs : List Change) → Among p (plan_from h id i cs) → Among p.change cs
  unfolding plan_from
  Among-change p i [] m = m
  Among-change p i (c ∷ cs) (inl e) = inl (ap (λ x. x.change) e)
  Among-change p i (c ∷ cs) (inr m) = inr (Among-change p (suc i) cs m)

  pub separate-own :
      (p : Planned) (ps : List Planned)
      → Among p ps
      → separate h id ps ≡ true
      → is_away_from_itself h id p.entry ≡ true
  unfolding separate
  separate-own p [] m e = elim m [ ]
  separate-own p (x ∷ xs) (inl q) e =
      subst (λ y. is_away_from_itself h id y.entry ≡ true) q (and_elim _ _ (and_elim _ _ e).0).0
  separate-own p (x ∷ xs) (inr m) e = separate-own p xs m (and_elim _ _ e).1

  others :
      (e : Entry) (xs : List Planned)
      → All (IsPlanned h id) xs
      → All (λ o. apart h id e o ≡ true) xs
      → All (IsOther h id e) xs
  others e [] a b = tt
  others e (x ∷ xs) a b = (((and_elim _ _ b.0).0, ap (λ y. y.path) a.0), others e xs a.1 b.1)

  pub separate-Chosen :
      (p : Planned) (ps : List Planned)
      → All (IsPlanned h id) ps
      → Among p ps
      → separate h id ps ≡ true
      → Chosen h id p.entry p ps
  unfolding separate
  separate-Chosen p [] a m e = m
  separate-Chosen p (x ∷ xs) a (inl q) e = inl (
    q,
    subst (λ y. All (IsOther h id y.entry) xs) q
        (others x.entry xs a.1
          (All-of_all (apart h id x.entry) xs (and_elim _ _ (and_elim _ _ e).0).1)),
  )
  separate-Chosen p (x ∷ xs) a (inr m) e = inr (
    (
      (and_elim _ _ (
          All-Among (λ o. apart h id x.entry o ≡ true) p xs
            (All-of_all (apart h id x.entry) xs (and_elim _ _ (and_elim _ _ e).0).1) m)).1,
      ap (λ y. y.path) a.0,
    ),
    separate-Chosen p xs a.1 m (and_elim _ _ e).1,
  )

  away_entries :
      (f : Entry) (ps : List Planned)
      → All (IsOther h id f) ps
      → All (λ o. is_away h id f o ≡ true) (map (λ p. p.entry) ps)
  away_entries f [] a = tt
  away_entries f (p ∷ ps) a = (a.0.0, away_entries f ps a.1)

  -- The manifest's entries are those of the plan.
  pub Chosen-Spotted :
      (f : Entry) (x : Planned) (ps : List Planned)
      → x.entry ≡ f
      → Chosen h id f x ps
      → Spotted h id f (map (λ p. p.entry) ps)
  Chosen-Spotted f x [] e k = k
  Chosen-Spotted f x (p ∷ ps) e (inl k) =
      inl (ap blank (ap (λ y. y.entry) k.0 ∙ e), away_entries f ps k.1)
  Chosen-Spotted f x (p ∷ ps) e (inr k) = inr (k.0.0, Chosen-Spotted f x ps e k.1)
