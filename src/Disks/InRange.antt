-- ===== src/Disks/InRange.antt =====
-- The wishes of `srd_check_reserved` keep `srd_remove_space` inside of the entries.
use spacex_storage.Prelude.{
  ℕ, zero, suc, ◌-◌, ◌<◌, ◌≡◌, refl, ap, Bool, false, ◌||◌, some, List, [], ◌∷◌, ℤ, pos, ◌+ℤ◌, ◌≤ℤ◌,
  ltb_ℤ, Text, text_eq, text_eq_lem, text_eq_refl, length, take, take_all, pos_part, neg_part,
  get_elem?, get_elem?-none, is_empty, if◌then◌else◌, inl, inr, Bool-cases, Option-cases, arith,
  int_laws, -ℤ_parts,
}
use spacex_storage.SrdMeta.Defs.{Srd, show_info, uuid_of, add_srd_to_deleted_buffer}
use spacex_storage.SrdMeta.Counts.{count}
use spacex_storage.SrdTask.Defs.{
  Removal, finished, Removing, grant, remove_body, remove_loop, srd_remove_space, total_wish, wish,
  shown_after,
}

abbrev pub has_name : Text → List Text → Bool
has_name u [] = false
has_name u (k ∷ ks) = text_eq u k || has_name u ks

abbrev pub AreDistinct : List Text → Type 0
AreDistinct [] = Unit
AreDistinct (k ∷ ks) = (has_name k ks ≡ false) × AreDistinct ks

-- The sum of the wishes of these names.
abbrev wants_sum : (Text → ℤ) → List Text → ℤ
wants_sum want [] = pos 0
wants_sum want (k ∷ ks) = want k +ℤ wants_sum want ks

wants_sum-grant_other :
    (want : Text → ℤ) (v : Text) (ks : List Text)
    → has_name v ks ≡ false
    → wants_sum (grant want v) ks ≡ wants_sum want ks
wants_sum-grant_other want v [] e = refl
wants_sum-grant_other want v (k ∷ ks) e =
    ground (arith, text_eq_lem k v, text_eq_refl v, wants_sum-grant_other want v ks)

-- A wish that is granted takes one off the sum at most.
wants_sum-grant :
    (want : Text → ℤ) (v : Text) (ks : List Text)
    → AreDistinct ks
    → wants_sum want ks ≤ℤ wants_sum (grant want v) ks +ℤ pos 1
wants_sum-grant want v [] h = omega int_laws
wants_sum-grant want v (k ∷ ks) h = elim (Bool-cases (text_eq k v)) [
  | inl same ↦
      let e = text_eq_lem k v same in
      let rest = wants_sum-grant_other want v ks (rw (← e) h.0) in rw (same, rest) (omega int_laws)
  | inr other ↦ let rest = wants_sum-grant want v ks h.1 in rw other (omega (int_laws, rest))
]

wants_sum-le :
    (want : Text → ℤ) (ks : List Text) → ((u : Text) → want u ≤ℤ pos 0) → wants_sum want ks ≤ℤ pos 0
wants_sum-le want [] h = omega arith
wants_sum-le want (k ∷ ks) h = omega (int_laws, h k, wants_sum-le want ks h)

count-take :
    (u : Text) (i : ℕ) (item : List ℕ) (items : List (List ℕ))
    → get_elem? items i ≡ some item
    → count u (take (suc i) items)
      ≡ (if text_eq u (uuid_of item) then suc (count u (take i items)) else count u (take i items))
unfolding count
count-take u i item [] e = cc
count-take u zero item (x ∷ xs) e = ground arith
count-take u (suc i) item (x ∷ xs) e = ground (arith, count-take u i item xs e)

-- What the loop keeps: the change is at most the sum of the wishes, and no disk has a wish for more than
-- its entries below the index.
abbrev CanGrant : List Text → ℕ → Removing → Type 0
CanGrant ks i r =
    (r.change ≤ℤ wants_sum r.want ks)
    × ((u : Text) → r.want u ≤ℤ pos (count u (take i r.srd.hashs)))

body-hashs : (i : ℕ) (item : List ℕ) (r : Removing) → (remove_body i item r).srd.hashs ≡ r.srd.hashs
unfolding remove_body add_srd_to_deleted_buffer
body-hashs i item r = ground arith

body-CanGrant :
    (ks : List Text) (i : ℕ) (item : List ℕ) (r : Removing)
    → AreDistinct ks
    → get_elem? r.srd.hashs i ≡ some item
    → CanGrant ks (suc i) r
    → CanGrant ks i (remove_body i item r)
unfolding remove_body add_srd_to_deleted_buffer
body-CanGrant ks i item r h e c = elim (Bool-cases (ltb_ℤ (pos 0) (r.want (uuid_of item)))) [
  | inl wanted ↦ rw wanted (
    omega (int_laws, c.0, wants_sum-grant r.want (uuid_of item) ks h),
    λ u. ground (
      arith,
      c.1 u,
      count-take u i item r.srd.hashs e,
      text_eq_lem u (uuid_of item),
      -ℤ_parts (r.want u) (pos 1),
    ),
  )
  | inr other ↦ rw other (
    c.0,
    λ u. ground (arith, c.1 u, count-take u i item r.srd.hashs e, text_eq_lem u (uuid_of item)),
  )
]

granted_all : (ks : List Text) (r : Removing) → CanGrant ks 0 r → ltb_ℤ (pos 0) r.change ≡ false
unfolding count
granted_all ks r c = ground (arith, c.0, wants_sum-le r.want ks c.1)

abbrev IsFinished : Removal → Type 0
IsFinished removal = (s : Srd) × (paths : List Text) × (removal ≡ finished s paths)

remove_loop-IsFinished :
    (ks : List Text) (i : ℕ) (r : Removing)
    → AreDistinct ks
    → i < length r.srd.hashs
    → CanGrant ks (suc i) r
    → IsFinished (remove_loop i r)
unfolding remove_loop
remove_loop-IsFinished ks zero r h lt c = elim (Bool-cases (ltb_ℤ (pos 0) r.change)) [
  | inr done ↦ (r.srd, r.paths, rw (done, remove_loop) refl)
  | inl more ↦ elim (Option-cases (get_elem? r.srd.hashs zero)) [
    | inl out ↦ absurd (omega (arith, get_elem?-none r.srd.hashs zero out))
    | inr (item, e) ↦
        let r' = remove_body zero item r in
        let done = granted_all ks r' (body-CanGrant ks zero item r h e c) in
        (r'.srd, r'.paths, rw (more, e, done, remove_loop) refl)
  ]
]
remove_loop-IsFinished ks (suc i) r h lt c = elim (Bool-cases (ltb_ℤ (pos 0) r.change)) [
  | inr done ↦ (r.srd, r.paths, rw (done, remove_loop) refl)
  | inl more ↦ elim (Option-cases (get_elem? r.srd.hashs (suc i))) [
    | inl out ↦ absurd (omega (arith, get_elem?-none r.srd.hashs (suc i) out))
    | inr (item, e) ↦
        let r' = remove_body (suc i) item r in
        let size = ap length (body-hashs (suc i) item r) in
        let (s', paths, end) =
          remove_loop-IsFinished ks i r' h (omega (arith, size))
            (body-CanGrant ks (suc i) item r h e c) in
        (s', paths, rw (more, e, remove_loop) end)
  ]
]

abbrev pub names : List (Text × ℤ) → List Text
names [] = []
names ((u, num) ∷ wishes) = u ∷ names wishes

wants_sum-skip :
    (k : Text) (num : ℤ) (wishes : List (Text × ℤ)) (ks : List Text)
    → has_name k ks ≡ false
    → wants_sum (wish ((k, num) ∷ wishes)) ks ≡ wants_sum (wish wishes) ks
wants_sum-skip k num wishes [] e = refl
wants_sum-skip k num wishes (j ∷ ks) e =
    ground (arith, text_eq_lem j k, text_eq_refl k, wants_sum-skip k num wishes ks)

total_wish-wants_sum :
    (wishes : List (Text × ℤ))
    → AreDistinct (names wishes)
    → wants_sum (wish wishes) (names wishes) ≡ total_wish wishes
total_wish-wants_sum [] h = refl
total_wish-wants_sum ((k, num) ∷ wishes) h = ground (
  arith,
  text_eq_refl k,
  wants_sum-skip k num wishes (names wishes) h.0,
  total_wish-wants_sum wishes h.1,
)

shown-IsFinished : (removal : Removal) → IsFinished removal → IsFinished (shown_after removal)
unfolding shown_after
shown-IsFinished removal (s, paths, e) = (show_info s, paths, rw e refl)

-- When no disk is to give back more than it has entries, the loop of `srd_remove_space` ends inside of
-- them. The names of the disks are distinct, as the keys of an object are.
pub srd_remove_space_in_range :
    (wishes : List (Text × ℤ)) (s : Srd)
    → AreDistinct (names wishes)
    → ((u : Text) → wish wishes u ≤ℤ pos (count u s.hashs))
    → (s' : Srd) × (paths : List Text) × (srd_remove_space (some wishes) s ≡ finished s' paths)
unfolding srd_remove_space
srd_remove_space_in_range wishes s h each = elim (Bool-cases (is_empty s.hashs)) [
  | inl none_there ↦ rw none_there (shown-IsFinished (finished s []) (s, [], refl))
  | inr there ↦
      let size : 0 < length s.hashs = ground arith in
      let last = length s.hashs - 1 in
      let start : Removing = record {
        want = wish wishes;
        change = total_wish wishes;
        srd = s;
        paths = [];
      } in
      let all : take (suc last) s.hashs ≡ s.hashs = take_all (suc last) s.hashs (omega arith) in
      let sum = total_wish-wants_sum wishes h in
      rw there (
        shown-IsFinished (remove_loop last start) (
          remove_loop-IsFinished (names wishes) last start h (omega arith)
            (omega (arith, ap pos_part sum, ap neg_part sum), λ u. rw all (each u))))
]
