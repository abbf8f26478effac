-- ===== src/Format/Labels.antt =====
-- `PurePosixPath(label)` and the test that a label is a plain relative path, which
-- helper_protocol.py makes on each change and helper_service.py on each allow-list entry.
use nixos_control_manager.Prelude.{
  ℕ, Bool, true, false, not, ◌&&◌, ◌≡◌, ◌↔◌, refl, ap, ◌∙◌, sym, List, [], ◌∷◌, ◌++◌, nat_eq, all,
  arith, if◌then◌else◌, Bool-cases, inl, inr, ◌||◌,
}

abbrev pub Text : Type 0
Text = List ℕ

pub text_eq : Text → Text → Bool
text_eq [] [] = true
text_eq [] (d ∷ ds) = false
text_eq (c ∷ cs) [] = false
text_eq (c ∷ cs) (d ∷ ds) = nat_eq c d && text_eq cs ds

pub text_eq_iff : (a b : Text) → (text_eq a b ≡ true) ↔ (a ≡ b)
unfolding text_eq
text_eq_iff [] [] = (λ _. refl, λ _. refl)
text_eq_iff [] (d ∷ ds) = (λ h. cc, λ h. cc)
text_eq_iff (c ∷ cs) [] = (λ h. cc, λ h. cc)
text_eq_iff (c ∷ cs) (d ∷ ds) =
    (λ h. ground (arith, text_eq_iff cs ds), λ h. ground (arith, text_eq_iff cs ds))

onto_head : ℕ → List Text → List Text
onto_head c [] = (c ∷ []) ∷ []
onto_head c (t ∷ ts) = (c ∷ t) ∷ ts

-- `label.split("/")`
unfoldable pub split : Text → List Text
unfolding onto_head
split [] = [] ∷ []
split (c ∷ cs) = let rest = split cs in if nat_eq c b'/' then [] ∷ rest else onto_head c rest

dot : Text
dot = b'.' ∷ []

dotdot : Text
dotdot = b'.' ∷ b'.' ∷ []

-- What pathlib keeps of the components.
kept : Text → Bool
unfolding dot text_eq
kept p = not (text_eq p [] || text_eq p dot)

-- `part in {"", ".", ".."}`
unfoldable pub is_special : Text → Bool
unfolding dot dotdot text_eq
is_special p = text_eq p [] || text_eq p dot || text_eq p dotdot

keep_parts : List Text → List Text
unfolding kept
keep_parts [] = []
keep_parts (p ∷ ps) = let rest = keep_parts ps in if kept p then p ∷ rest else rest

-- `PurePosixPath(label).parts`, for a relative label
unfoldable pub parts : Text → List Text
unfolding split keep_parts
parts cs = keep_parts (split cs)

-- `PurePosixPath(label).is_absolute()`
unfoldable pub is_absolute : Text → Bool
is_absolute [] = false
is_absolute (c ∷ cs) = nat_eq c b'/'

-- `str(path)` of the parts of a relative path
unfoldable pub join : List Text → Text
join [] = []
join (p ∷ []) = p
join (p ∷ q ∷ ps) = p ++ b'/' ∷ join (q ∷ ps)

abbrev is_empty : List Text → Bool
is_empty [] = true
is_empty (p ∷ ps) = false

abbrev pub is_component : Text → Bool
is_component p = not (is_special p)

-- The test of `CandidateFile.from_mapping` and of `HelperTarget.__post_init__`.
unfoldable pub is_plain_label : Text → Bool
unfolding parts is_absolute join is_special
is_plain_label cs =
    not (is_absolute cs)
    && not (is_empty (parts cs))
    && all is_component (parts cs)
    && text_eq (join (parts cs)) cs

abbrev no_slash : Text → Bool
no_slash = all (λ c. not (nat_eq c b'/'))

join-onto_head : (c : ℕ) (ts : List Text) → join (onto_head c ts) ≡ c ∷ join ts
unfolding join onto_head
join-onto_head c [] = refl
join-onto_head c (t ∷ []) = refl
join-onto_head c (t ∷ u ∷ ts) = refl

split-cons : (cs : Text) → is_empty (split cs) ≡ false
unfolding split
split-cons [] = refl
split-cons (c ∷ cs) = ground (arith, split-cons cs)

join-cons : (ts : List Text) → is_empty ts ≡ false → join ([] ∷ ts) ≡ b'/' ∷ join ts
unfolding join
join-cons [] h = cc
join-cons (t ∷ ts) h = refl

-- Joining the pieces of a label gives the label.
join-split : (cs : Text) → join (split cs) ≡ cs
unfolding split
join-split [] = unfold join in refl
join-split (c ∷ cs) = elim (Bool-cases (nat_eq c b'/')) [
  | inl slash ↦ rw slash (join-cons (split cs) (split-cons cs) ∙ ground (arith, join-split cs))
  | inr other ↦ rw other (join-onto_head c (split cs) ∙ ap (λ t. c ∷ t) (join-split cs))
]

onto_head-no_slash :
    (c : ℕ) (ts : List Text)
    → nat_eq c b'/' ≡ false
    → all no_slash ts ≡ true
    → all no_slash (onto_head c ts) ≡ true
unfolding onto_head
onto_head-no_slash c [] e h = ground arith
onto_head-no_slash c (t ∷ ts) e h = ground arith

split-no_slash : (cs : Text) → all no_slash (split cs) ≡ true
unfolding split
split-no_slash [] = refl
split-no_slash (c ∷ cs) = ground (arith, split-no_slash cs, onto_head-no_slash c (split cs))

split-append : (p cs : Text) → no_slash p ≡ true → split (p ++ b'/' ∷ cs) ≡ p ∷ split cs
unfolding split
split-append [] cs h = refl
split-append (c ∷ p) cs h = ground (arith, split-append p cs)

split-one : (p : Text) → no_slash p ≡ true → split p ≡ p ∷ []
unfolding split
split-one [] h = refl
split-one (c ∷ p) h = ground (arith, split-one p)

split-join : (ps : List Text) → is_empty ps ≡ false → all no_slash ps ≡ true → split (join ps) ≡ ps
unfolding join
split-join [] n h = cc
split-join (p ∷ []) n h = split-one p (ground arith)
split-join (p ∷ q ∷ ps) n h =
    split-append p (join (q ∷ ps)) (ground arith)
    ∙ ap (λ t. p ∷ t) (split-join (q ∷ ps) refl (ground arith))

keep_parts-no_slash :
    (ps : List Text) → all no_slash ps ≡ true → all no_slash (keep_parts ps) ≡ true
unfolding keep_parts
keep_parts-no_slash [] h = refl
keep_parts-no_slash (p ∷ ps) h = ground (arith, keep_parts-no_slash ps)

keep_parts_self : (ps : List Text) → all is_component ps ≡ true → keep_parts ps ≡ ps
unfolding keep_parts is_special kept
keep_parts_self [] h = refl
keep_parts_self (p ∷ ps) h = ground (arith, keep_parts_self ps)

plain_parts : (cs : Text) → is_plain_label cs ≡ true → parts cs ≡ split cs
unfolding is_plain_label
plain_parts cs h =
    let same : join (parts cs) ≡ cs = (text_eq_iff (join (parts cs)) cs).0 (ground arith) in
    let kept_clean : all no_slash (parts cs) ≡ true =
      unfold parts in keep_parts-no_slash (split cs) (split-no_slash cs) in
    sym (split-join (parts cs) (ground arith) kept_clean) ∙ ap split same

plain-components : (cs : Text) → is_plain_label cs ≡ true → all is_component (split cs) ≡ true
unfolding is_plain_label
plain-components cs h = rw (← plain_parts cs h) (ground arith)

absolute-components : (cs : Text) → all is_component (split cs) ≡ true → is_absolute cs ≡ false
unfolding is_absolute is_special split
absolute-components [] h = refl
absolute-components (c ∷ cs) h = ground arith

components-plain : (cs : Text) → all is_component (split cs) ≡ true → is_plain_label cs ≡ true
unfolding is_plain_label
components-plain cs h = ground (
  arith,
  join-split cs,
  split-cons cs,
  keep_parts_self (split cs) h,
  text_eq_iff cs cs,
  absolute-components cs,
)

-- A label passes the pathlib test exactly when every piece between its slashes is a name:
-- none is empty, `.` or `..`.
pub is_plain_label_iff :
    (cs : Text) → (is_plain_label cs ≡ true) ↔ (all is_component (split cs) ≡ true)
is_plain_label_iff cs = (plain-components cs, components-plain cs)
