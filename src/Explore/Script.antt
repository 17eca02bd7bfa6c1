-- ===== src/Explore/Script.antt =====
-- des-explore/src/schedule_explore.rs: decision keys, normalised choice sets and decision scripts.
use mathlib.Core.List.{Perm}
use mathlib.Core.List.Perm
use mathlib.Core.List.{is_set, foldr}
use native.Mathlib.Nat.{ℕ_set}
use des_cartes.Prelude.{
  ℕ, ◌≡◌, refl, sym, ap, ◌∙◌, Bool, true, false, ◌&&◌, Option, none, some, List, [], ◌∷◌, arith,
  leb, ◌==◌, if◌then◌else◌,
}

pub data DecisionKind : Type 0 where
  frontier tokio_ready : DecisionKind

pub record DecisionKey : Type 0 where
  pub kind : DecisionKind
  pub time_nanos : ℕ
  pub ordinal : ℕ
  pub choice_set : List ℕ

-- `sort_unstable`, which numbers cannot tell from a stable sort.
abbrev pub insert_sorted : ℕ → List ℕ → List ℕ
insert_sorted k [] = k ∷ []
insert_sorted k (x ∷ xs) = let rest = insert_sorted k xs in if leb k x then k ∷ x ∷ xs else x ∷ rest

unfoldable pub sort_unstable : List ℕ → List ℕ
sort_unstable [] = []
sort_unstable (x ∷ xs) = insert_sorted x (sort_unstable xs)

-- `Vec::dedup`: of equal neighbours the first one stays.
dedup_cons : ℕ → List ℕ → List ℕ
dedup_cons x [] = x ∷ []
dedup_cons x (y ∷ ys) = if x == y then y ∷ ys else x ∷ y ∷ ys

unfoldable pub dedup : List ℕ → List ℕ
unfolding dedup_cons
dedup [] = []
dedup (x ∷ xs) = dedup_cons x (dedup xs)

-- `sort_unstable` and then `dedup`.
unfoldable pub normal_set : List ℕ → List ℕ
unfolding sort_unstable dedup
normal_set xs = dedup (sort_unstable xs)

unfoldable pub normalize : DecisionKey → DecisionKey
unfolding normal_set
normalize key = record key { choice_set = normal_set key.choice_set }

abbrev pub new_key : DecisionKind → ℕ → ℕ → List ℕ → DecisionKey
new_key kind time_nanos ordinal choice_set =
    normalize
      (record { kind = kind; time_nanos = time_nanos; ordinal = ordinal; choice_set = choice_set })

-- The equality of `Vec<u64>` and the derived one of the keys.
abbrev pub same_list : List ℕ → List ℕ → Bool
same_list [] [] = true
same_list [] (y ∷ ys) = false
same_list (x ∷ xs) [] = false
same_list (x ∷ xs) (y ∷ ys) = (x == y) && same_list xs ys

abbrev pub same_kind : DecisionKind → DecisionKind → Bool
same_kind frontier frontier = true
same_kind tokio_ready tokio_ready = true
same_kind _ _ = false

abbrev pub same_key : DecisionKey → DecisionKey → Bool
same_key a b =
    same_kind a.kind b.kind
    && ((a.time_nanos == b.time_nanos)
        && ((a.ordinal == b.ordinal) && same_list a.choice_set b.choice_set))

-- The map of a script, with what was inserted last in front, where it hides an older entry.
abbrev pub DecisionScript : Type 0
DecisionScript = List (DecisionKey × ℕ)

unfoldable pub insert_decision : DecisionKey → ℕ → DecisionScript → DecisionScript
unfolding normalize
insert_decision key chosen script = (normalize key, chosen) ∷ script

abbrev find_key : DecisionKey → DecisionScript → Option ℕ
find_key key [] = none
find_key key ((k, chosen) ∷ script) = if same_key k key then some chosen else find_key key script

unfoldable pub get_decision : DecisionKey → DecisionScript → Option ℕ
unfolding normalize
get_decision key script = find_key (normalize key) script

insert_sorted_comm :
    (a b : ℕ) (xs : List ℕ)
    → insert_sorted a (insert_sorted b xs) ≡ insert_sorted b (insert_sorted a xs)
insert_sorted_comm a b [] = grind arith
insert_sorted_comm a b (x ∷ xs) = grind (arith, insert_sorted_comm a b xs)

sort_unstable-foldr : (xs : List ℕ) → sort_unstable xs ≡ foldr insert_sorted [] xs
unfolding sort_unstable
sort_unstable-foldr [] = refl
sort_unstable-foldr (x ∷ xs) = ap (insert_sorted x) (sort_unstable-foldr xs)

sort_unstable-Perm : {xs ys : List ℕ} → Perm xs ys → sort_unstable xs ≡ sort_unstable ys
sort_unstable-Perm {xs} {ys} p =
    sort_unstable-foldr xs
    ∙ Perm.foldr-eq (is_set ℕ_set) insert_sorted insert_sorted_comm p []
    ∙ sym (sort_unstable-foldr ys)

-- The order in which a frontier lists its entries does not change its normalised set.
pub normal_set-Perm : {xs ys : List ℕ} → Perm xs ys → normal_set xs ≡ normal_set ys
unfolding normal_set
normal_set-Perm p = ap dedup (sort_unstable-Perm p)

pub same_list_refl : (xs : List ℕ) → same_list xs xs ≡ true
same_list_refl [] = refl
same_list_refl (x ∷ xs) = grind (arith, same_list_refl xs)

same_kind_refl : (k : DecisionKind) → same_kind k k ≡ true
same_kind_refl frontier = refl
same_kind_refl tokio_ready = refl

-- A decision inserted for one choice set is found under every reordering of that set, with the same
-- kind, time and ordinal.
pub get_decision-insert_decision :
    (kind : DecisionKind) (t ordinal chosen : ℕ) (xs ys : List ℕ) (script : DecisionScript)
    → Perm xs ys
    → get_decision
        (record { kind = kind; time_nanos = t; ordinal = ordinal; choice_set = ys })
        (insert_decision
          (record { kind = kind; time_nanos = t; ordinal = ordinal; choice_set = xs })
          chosen
          script)
      ≡ some chosen
unfolding get_decision insert_decision normalize
get_decision-insert_decision kind t ordinal chosen xs ys script p =
    let same = normal_set-Perm p in
    rw (same) (grind (arith, same_list_refl (normal_set ys), same_kind_refl kind))
