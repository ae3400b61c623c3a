-- ===== src/AppData/Types.antt =====
-- A file stands under one type at a time.
use spacex_storage.Prelude.{
  true, false, Option, none, some, List, [], ◌∷◌, ◌≡◌, refl, sym, ap, ◌∙◌, Text, text_eq,
  text_eq_lem, text_eq_refl, if◌then◌else◌, ◌⊎◌, ◌&&◌, inl, inr, Bool-cases, Option-cases, arith,
}
use spacex_storage.AppData.Maps.{lookup_key, set_key, erase_key, lookup-set_key, lookup-erase_key}
use spacex_storage.AppData.Defs.{
  AppData, type_pending, type_valid, of_type, put_type, or_no_map, del_pending_file_size,
  add_file_info, change_file_type, is_found, erase_everywhere, del_file_info, del_file_info_of,
}

-- What is known of a file under a type.
abbrev pub info_at : Text → Text → AppData → Option Text
info_at type cid d = lookup_key cid (of_type type d)

of_type-put_type :
    (t type : Text) (m : List (Text × Text)) (d : AppData)
    → of_type t (put_type type m d) ≡ (if text_eq t type then m else of_type t d)
unfolding of_type put_type
of_type-put_type t type m d = ground (arith, lookup-set_key t type m d.sealed_file)

of_type-del_size :
    (t cid : Text) (d : AppData) → of_type t (del_pending_file_size cid d) ≡ of_type t d
unfolding of_type del_pending_file_size
of_type-del_size t cid d = refl

info_at-set :
    (t type c cid info : Text) (d : AppData)
    → info_at t c (put_type type (set_key cid info (of_type type d)) d)
      ≡ (if text_eq t type && text_eq c cid then some info else info_at t c d)
info_at-set t type c cid info d = ground (
  arith,
  of_type-put_type t type (set_key cid info (of_type type d)) d,
  lookup-set_key c cid info (of_type type d),
  text_eq_lem t type,
)

info_at-erase :
    (t type c cid : Text) (d : AppData)
    → info_at t c (put_type type (erase_key cid (of_type type d)) d)
      ≡ (if text_eq t type && text_eq c cid then none else info_at t c d)
info_at-erase t type c cid d = ground (
  arith,
  of_type-put_type t type (erase_key cid (of_type type d)) d,
  lookup-erase_key c cid (of_type type d),
  text_eq_lem t type,
)

-- `change_file_type` moves what is known of the file from the one type to the other, and does nothing for a file that the old type does not have; when both types are the same the file is lost.
pub change_file_type-info_at :
    (t c cid old_type new_type : Text) (d : AppData)
    → info_at t c (change_file_type cid old_type new_type d) ≡ (
        if is_found (info_at old_type cid d) && text_eq c cid
        then (if text_eq t old_type
            then none
            else if text_eq t new_type
            then info_at old_type cid d
            else info_at t c d)
        else info_at t c d)
unfolding change_file_type
change_file_type-info_at t c cid old new d = elim (Option-cases (lookup_key cid (of_type old d))) [
  | inl e ↦ rw (e, change_file_type) refl
  | inr (info, e) ↦
      let d' = put_type new (set_key cid info (of_type new d)) d in
      let step = info_at-set t new c cid info d in
      let back = info_at-erase t old c cid d' in
      rw (e, change_file_type) (ground (arith, step, back))
]

-- No file stands under two types, as the proofs use it.
OneType : AppData → Type 0
OneType d =
    (cid t t' : Text)
    → is_found (info_at t cid d) ≡ true
    → is_found (info_at t' cid d) ≡ true
    → t ≡ t'

-- Of two types a file stands under one at most.
unfoldable pub IsSingle : AppData → Type 0
IsSingle d =
    (cid t t' : Text)
    → (t ≡ t') ⊎ ((is_found (info_at t cid d) && is_found (info_at t' cid d)) ≡ false)

IsSingle-OneType : (d : AppData) → IsSingle d → OneType d
unfolding IsSingle OneType
IsSingle-OneType d s cid t t' h h' = elim (s cid t t') [
  | inl e ↦ e
  | inr b ↦ ground (arith, b, h, h')
]

OneType-IsSingle : (d : AppData) → OneType d → IsSingle d
unfolding IsSingle OneType
OneType-IsSingle d s cid t t' =
    elim (Bool-cases (is_found (info_at t cid d) && is_found (info_at t' cid d))) [
      | inl b ↦ inl (s cid t t' (ground (arith, b)) (ground (arith, b)))
      | inr b ↦ inr b
    ]

-- After a move the file stands under the new type alone.
moved_to :
    (t c cid old_type new_type : Text) (d : AppData)
    → OneType d
    → (is_found (info_at old_type cid d) && text_eq c cid) ≡ true
    → is_found (info_at t c (change_file_type cid old_type new_type d)) ≡ true
    → t ≡ new_type
unfolding OneType
moved_to t c cid old new d s b h =
    let now = change_file_type-info_at t c cid old new d in
    let same : c ≡ cid = text_eq_lem c cid (ground (arith, b)) in
    let was : is_found (info_at old c d) ≡ true =
      ap (λ x. is_found (info_at old x d)) same ∙ ground (arith, b) in
    let alone = s c t old in
    ground (arith, b, now, h, was, alone, text_eq_lem t new, text_eq_refl old)

change_file_type-OneType :
    (cid old_type new_type : Text) (d : AppData)
    → OneType d
    → OneType (change_file_type cid old_type new_type d)
unfolding OneType
change_file_type-OneType cid old new d s c t t' h h' =
    elim (Bool-cases (is_found (info_at old cid d) && text_eq c cid)) [
      | inl b ↦ moved_to t c cid old new d s b h ∙ sym (moved_to t' c cid old new d s b h')
      | inr b ↦
          let at_t = change_file_type-info_at t c cid old new d in
          let at_t' = change_file_type-info_at t' c cid old new d in
          s c t t' (ground (arith, b, at_t, h)) (ground (arith, b, at_t', h'))
    ]

-- What a valid file is added to: the pending entry is gone.
add_file_info-info_at :
    (started t c cid type info : Text) (d : AppData)
    → info_at t c (add_file_info started cid type info d) ≡ (
        if text_eq c cid
        then (if text_eq t type
            then some (if text_eq type type_pending then started else info)
            else if text_eq type type_valid && text_eq t type_pending
            then none
            else info_at t c d)
        else info_at t c d)
unfolding add_file_info
add_file_info-info_at started t c cid type info d = elim (Bool-cases (text_eq type type_valid)) [
  | inl v ↦
      let d1 = put_type type_pending (erase_key cid (of_type type_pending d)) d in
      let d2 = del_pending_file_size cid d1 in
      let step =
        info_at-set t type c cid (if text_eq type type_pending then started else info) d2 in
      let sizes : info_at t c d2 ≡ info_at t c d1 = ap (lookup_key c) (of_type-del_size t cid d1) in
      let erased = info_at-erase t type_pending c cid d in
      rw (v, add_file_info) (ground (arith, step, sizes, erased))
  | inr v ↦
      let step = info_at-set t type c cid (if text_eq type type_pending then started else info) d in
      rw (v, add_file_info) (ground (arith, step))
]

-- After it has been added, a file stands under its type alone.
added_to :
    (started t cid type info : Text) (d : AppData)
    → ((x : Text)
        → is_found (info_at x cid d) ≡ true
        → (x ≡ type) ⊎ ((x ≡ type_pending) × (type ≡ type_valid)))
    → is_found (info_at t cid (add_file_info started cid type info d)) ≡ true
    → t ≡ type
added_to started t cid type info d only h =
    let now = add_file_info-info_at started t cid cid type info d in
    let self = text_eq_refl cid in
    elim (Bool-cases (is_found (info_at t cid d))) [
      | inl was ↦ elim (only t was) [
        | inl e ↦ e
        | inr (p, v) ↦
            let is_p : text_eq t type_pending ≡ true =
              ap (λ x. text_eq x type_pending) p ∙ text_eq_refl type_pending in
            let is_v : text_eq type type_valid ≡ true =
              ap (λ x. text_eq x type_valid) v ∙ text_eq_refl type_valid in
            ground (arith, now, self, h, is_p, is_v, text_eq_lem t type)
      ]
      | inr was ↦ ground (arith, now, self, h, was, text_eq_lem t type)
    ]

add_file_info-OneType :
    (started cid type info : Text) (d : AppData)
    → OneType d
    → ((t : Text)
        → is_found (info_at t cid d) ≡ true
        → (t ≡ type) ⊎ ((t ≡ type_pending) × (type ≡ type_valid)))
    → OneType (add_file_info started cid type info d)
unfolding OneType
add_file_info-OneType started cid type info d s only c t t' h h' =
    elim (Bool-cases (text_eq c cid)) [
      | inl b ↦
          let same = text_eq_lem c cid b in
          let at : is_found (info_at t cid (add_file_info started cid type info d)) ≡ true =
            ap (λ x. is_found (info_at t x (add_file_info started cid type info d))) (sym same)
            ∙ h in
          let at' : is_found (info_at t' cid (add_file_info started cid type info d)) ≡ true =
            ap (λ x. is_found (info_at t' x (add_file_info started cid type info d))) (sym same)
            ∙ h' in
          added_to started t cid type info d only at
          ∙ sym (added_to started t' cid type info d only at')
      | inr b ↦
          let at_t = add_file_info-info_at started t c cid type info d in
          let at_t' = add_file_info-info_at started t' c cid type info d in
          s c t t' (ground (arith, b, at_t, h)) (ground (arith, b, at_t', h'))
    ]

-- A file stands under one type at a time: adding a file keeps this if the file is not there yet under another type, save as a pending one that becomes valid.
pub add_file_info-IsSingle :
    (started cid type info : Text) (d : AppData)
    → IsSingle d
    → ((t : Text)
        → is_found (info_at t cid d) ≡ true
        → (t ≡ type) ⊎ ((t ≡ type_pending) × (type ≡ type_valid)))
    → IsSingle (add_file_info started cid type info d)
add_file_info-IsSingle started cid type info d s only =
    OneType-IsSingle (add_file_info started cid type info d)
      (add_file_info-OneType started cid type info d (IsSingle-OneType d s) only)

erase_everywhere_lem :
    (t c cid : Text) (m : List (Text × List (Text × Text)))
    → lookup_key c (or_no_map (lookup_key t (erase_everywhere cid m)))
      ≡ (if text_eq c cid then none else lookup_key c (or_no_map (lookup_key t m)))
unfolding erase_everywhere lookup_key
erase_everywhere_lem t c cid [] = ground arith
erase_everywhere_lem t c cid ((type, m) ∷ rest) =
    ground (arith, erase_everywhere_lem t c cid rest, lookup-erase_key c cid m)

-- `del_file_info(cid)` leaves nothing of the file under any type, and all other files alone.
pub del_file_info-info_at :
    (t c cid : Text) (d : AppData)
    → info_at t c (del_file_info cid d) ≡ (if text_eq c cid then none else info_at t c d)
unfolding del_file_info of_type del_pending_file_size
del_file_info-info_at t c cid d = ground (arith, erase_everywhere_lem t c cid d.sealed_file)

del_file_info_of-info_at :
    (t type c cid : Text) (d : AppData)
    → info_at t c (del_file_info_of cid type d)
      ≡ (if text_eq t type && text_eq c cid then none else info_at t c d)
unfolding del_file_info_of
del_file_info_of-info_at t type c cid d =
    let d1 = put_type type (erase_key cid (of_type type d)) d in
    let sizes : info_at t c (del_pending_file_size cid d1) ≡ info_at t c d1 =
      ap (lookup_key c) (of_type-del_size t cid d1) in
    ground (arith, sizes, info_at-erase t type c cid d)

-- The calls of the enclave about files that are there.
pub data FileCall : Type 0 where
  changed : Text → Text → Text → FileCall
  gone : Text → FileCall
  gone_of : Text → Text → FileCall

unfoldable pub file_call : FileCall → AppData → AppData
file_call (changed cid old_type new_type) d = change_file_type cid old_type new_type d
file_call (gone cid) d = del_file_info cid d
file_call (gone_of cid type) d = del_file_info_of cid type d

unfoldable pub file_calls : List FileCall → AppData → AppData
unfolding file_call
file_calls [] d = d
file_calls (c ∷ cs) d = file_calls cs (file_call c d)

file_call-OneType : (call : FileCall) (d : AppData) → OneType d → OneType (file_call call d)
unfolding file_call OneType
file_call-OneType (changed cid old new) d s = change_file_type-OneType cid old new d s
file_call-OneType (gone cid) d s = λ c t t' h h'.
    let at_t = del_file_info-info_at t c cid d in
    let at_t' = del_file_info-info_at t' c cid d in
    s c t t' (ground (arith, at_t, h)) (ground (arith, at_t', h'))
file_call-OneType (gone_of cid type) d s = λ c t t' h h'.
    let at_t = del_file_info_of-info_at t type c cid d in
    let at_t' = del_file_info_of-info_at t' type c cid d in
    s c t t' (ground (arith, at_t, h)) (ground (arith, at_t', h'))

file_calls-OneType : (cs : List FileCall) (d : AppData) → OneType d → OneType (file_calls cs d)
unfolding file_calls
file_calls-OneType [] d s = s
file_calls-OneType (c ∷ cs) d s = file_calls-OneType cs (file_call c d) (file_call-OneType c d s)

-- Whatever changes of type and deletions the enclave tells the application of, in whatever order, no file comes to stand under two types when none does at first.
pub file_calls-IsSingle :
    (cs : List FileCall) (d : AppData) → IsSingle d → IsSingle (file_calls cs d)
file_calls-IsSingle cs d s =
    OneType-IsSingle (file_calls cs d) (file_calls-OneType cs d (IsSingle-OneType d s))
