-- ===== src/Transaction/LiveRoots.antt =====
-- `require_live_managed_root` and `_safe_managed_root` of managed_plan.py: what is known of a root
-- that they accept.
use nixos_control_manager.Prelude.{
  ℕ, String, Bool, true, false, not, ◌&&◌, ◌||◌, ◌≡◌, ◌≢◌, refl, sym, subst, ap, ◌⊎◌, inl, inr,
  List, [], ◌∷◌, ◌++◌, ◌==◌, ◌<>◌, nat_eq, and_elim, or_elim, eq_iff, arith,
}
use nixos_control_manager.Format.{codes}
use nixos_control_manager.Transaction.Errors.{Outcome, ok, err, dead}
use nixos_control_manager.Transaction.Roots.{
  Places, check, ◌then◌, forward, codes_eq, ends_with, is_live, check_managed_path,
  safe_managed_root, live_only, require_live_managed_root,
}

-- A managed file that is there is a regular one.
abbrev pub IsPlain : Places → String → Type 0
IsPlain places path =
    (places.is_link path ≡ false) × (places.exists path ≡ true → places.is_file path ≡ true)

-- A root is `live`, or ends in it, with either slash.
abbrev pub IsLive : String → String → Type 0
IsLive live root = (root ≡ live) ⊎ ((front : List ℕ) × (forward (codes root) ≡ front ++ codes live))

-- `resolved` is an existing directory behind `root`, neither a link nor unsafe, whose managed
-- files are no links, and it is that of the live system.
pub record IsLiveRoot (places : Places) (root resolved : String) : Type 0 where
  pub no_link : places.is_link root ≡ false
  pub resolves : resolved ≡ places.resolve root
  pub directory : places.is_directory resolved ≡ true
  pub not_top : resolved ≢ "/"
  pub not_stored : places.in_store resolved ≡ false
  pub folder : places.is_link (resolved <> "/ncm") ≡ false
  pub state : IsPlain places (resolved <> "/ncm/state.json")
  pub packages : IsPlain places (resolved <> "/ncm/packages.nix")
  pub live : IsLive "/etc/nixos" resolved

not_elim : (b : Bool) → not b ≡ true → b ≡ false
not_elim b e = ground arith

not_or : (a b : Bool) → not (a || b) ≡ true → (a ≡ false) × (b ≡ false)
not_or a b e = ground arith

not_without : (a b : Bool) → not (a && not b) ≡ true → a ≡ true → b ≡ true
not_without a b e k = ground arith

check-ok : (b : Bool) (s : String) → check b s ≡ ok tt → b ≡ true
check-ok true s e = refl
check-ok false s e = cc

then-ok :
    {T : Type 0} (a : Outcome (Unit {0})) (r : Outcome T) (t : T)
    → (a then r) ≡ ok t
    → (a ≡ ok tt) × (r ≡ ok t)
then-ok (ok tt) r t e = (refl, e)
then-ok (err f) r t e = cc
then-ok dead r t e = cc

ok_injective : (s r : String) → ok s ≡ ok r → s ≡ r
ok_injective s r e = cc

different : (a b : String) → (a == b) ≡ false → a ≢ b
different a b e k = let same = (eq_iff a b).1 k in cc

codes_eq-eq : (cs ds : List ℕ) → codes_eq cs ds ≡ true → cs ≡ ds
codes_eq-eq [] [] e = refl
codes_eq-eq [] (d ∷ ds) e = cc
codes_eq-eq (c ∷ cs) [] e = cc
codes_eq-eq (c ∷ cs) (d ∷ ds) e =
    let (a, b) = and_elim (nat_eq c d) (codes_eq cs ds) e in
    let rest = codes_eq-eq cs ds b in let first : c ≡ d = ground arith in cc

ends_with-eq :
    (suffix cs : List ℕ) → ends_with suffix cs ≡ true → (front : List ℕ) × (cs ≡ front ++ suffix)
ends_with-eq suffix [] e = ([], codes_eq-eq [] suffix e)
ends_with-eq suffix (c ∷ cs) e = elim (or_elim (codes_eq (c ∷ cs) suffix) (ends_with suffix cs) e) [
  | inl here ↦ ([], codes_eq-eq (c ∷ cs) suffix here)
  | inr there ↦
      let (front, same) = ends_with-eq suffix cs there in (c ∷ front, ap (λ l. c ∷ l) same)
]

is_live-IsLive : (live root : String) → is_live live root ≡ true → IsLive live root
unfolding is_live
is_live-IsLive live root e =
    elim (or_elim (root == live) (ends_with (codes live) (forward (codes root))) e) [
      | inl same ↦ inl ((eq_iff root live).0 same)
      | inr ends ↦ inr (ends_with-eq (codes live) (forward (codes root)) ends)
    ]

module _ (places : Places) where
  check_managed_path-IsPlain :
      (path : String) → check_managed_path places path ≡ ok tt → IsPlain places path
  unfolding check_managed_path
  check_managed_path-IsPlain path e =
      let (a, b) = then-ok _ _ tt e in
      (not_elim _ (check-ok _ _ a), not_without _ _ (check-ok _ _ b))

  live_only-ok :
      (o : Outcome String) (r : String)
      → live_only places o ≡ ok r
      → (o ≡ ok r) × (is_live "/etc/nixos" r ≡ true)
  live_only-ok (ok s) r e =
      let (a, b) = then-ok (check (is_live "/etc/nixos" s) _) (ok s) r e in
      let same : s ≡ r = ok_injective s r b in
      (b, subst (λ x. is_live "/etc/nixos" x ≡ true) same (check-ok _ _ a))
  live_only-ok (err f) r e = cc
  live_only-ok dead r e = cc

  -- A root that is accepted is a live one.
  pub require_live_managed_root-IsLiveRoot :
      (root resolved : String)
      → require_live_managed_root places root ≡ ok resolved
      → IsLiveRoot places root resolved
  unfolding require_live_managed_root safe_managed_root
  require_live_managed_root-IsLiveRoot root resolved e =
      let (safe, live) = live_only-ok _ resolved e in
      let (p₆, same) = then-ok _ (ok (places.resolve root)) resolved safe in
      let (p₅, packages) = then-ok _ _ tt p₆ in
      let (p₄, state) = then-ok _ _ tt p₅ in
      let (p₃, folder) = then-ok _ _ tt p₄ in
      let (p₂, safe_place) = then-ok _ _ tt p₃ in
      let (link, directory) = then-ok _ _ tt p₂ in
      let (top, stored) = not_or _ _ (check-ok _ _ safe_place) in
      subst (IsLiveRoot places root) (ok_injective (places.resolve root) resolved same) (record {
        no_link = not_elim _ (check-ok _ _ link);
        resolves = refl;
        directory = check-ok _ _ directory;
        not_top = different (places.resolve root) "/" top;
        not_stored = stored;
        folder = not_elim _ (check-ok _ _ folder);
        state = check_managed_path-IsPlain _ state;
        packages = check_managed_path-IsPlain _ packages;
        live = is_live-IsLive "/etc/nixos" (places.resolve root) (
            subst (λ x. is_live "/etc/nixos" x ≡ true)
              (sym (ok_injective (places.resolve root) resolved same)) live);
      })
