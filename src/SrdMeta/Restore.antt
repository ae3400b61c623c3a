-- ===== src/SrdMeta/Restore.antt =====
-- What `serialize_srd` writes, `restore_srd` reads back.
use spacex_storage.Prelude.{
  ℕ, zero, suc, ◌+◌, ◌/◌, ◌%◌, ◌≡◌, ◌≢◌, refl, sym, ap, ◌∙◌, some, List, [], ◌∷◌, ◌++◌, map, pos,
  ◌+ℤ◌, Text, text_eq, length, take, take_all, All, if◌then◌else◌, arith,
}
use mathlib.Core.List.{append-nil, append_assoc}
use spacex_storage.Hex.{hex_digit, hexstring, hex_string_to_bytes-hexstring, IsBytes}
use spacex_storage.Status.{success}
use spacex_storage.SrdMeta.Defs.{
  Srd, uuid_of, add_detail, clean_srd, show_info, serialize_srd, restore_loop, restore_srd,
}
use spacex_storage.SrdMeta.Counts.{count, IsCounted}

-- An entry is `SRD_LENGTH` bytes.
abbrev pub IsItem : List ℕ → Type 0
IsItem item = IsBytes item × (length item ≡ 42)

abbrev twice : ℕ → ℕ
twice zero = zero
twice (suc n) = suc (suc (twice n))

take-hexstring : (n : ℕ) (bs : List ℕ) → take (twice n) (hexstring bs) ≡ hexstring (take n bs)
unfolding hexstring
take-hexstring zero bs = refl
take-hexstring (suc n) [] = refl
take-hexstring (suc n) (b ∷ bs) =
    ap (λ t. hex_digit (b / 16) ∷ hex_digit (b % 16) ∷ t) (take-hexstring n bs)

uuid_written : (item : List ℕ) → take 16 (hexstring item) ≡ uuid_of item
uuid_written item = take-hexstring 8 item

-- The state after the loop has read `items`.
abbrev after_items : List (List ℕ) → Srd → Srd
after_items [] s = s
after_items (item ∷ items) s = after_items items (record s {
  hashs = s.hashs ++ item ∷ [];
  info = record (s.info) { detail = add_detail s.info.detail (uuid_of item) (pos 1) };
})

written : List (List ℕ) → List Text
written = map (λ item. hexstring (take 42 item))

restore_loop-written :
    (items : List (List ℕ)) (s : Srd)
    → All IsItem items
    → restore_loop (written items) s ≡ some (after_items items s)
unfolding restore_loop written
restore_loop-written [] s h = refl
restore_loop-written (item ∷ items) s h =
    rw
      (
        take_all 42 item h.0.1,
        hex_string_to_bytes-hexstring item h.0.0 (λ e. ground (arith, h.0.1)),
        restore_loop,
      )
      (rw (take_all 42 item h.0.1, uuid_written item) (restore_loop-written items _ h.1))

after_items-hashs :
    (items : List (List ℕ)) (s : Srd) → (after_items items s).hashs ≡ s.hashs ++ items
after_items-hashs [] s = sym (append-nil s.hashs)
after_items-hashs (item ∷ items) s =
    after_items-hashs items _ ∙ append_assoc s.hashs (item ∷ []) items

after_items-detail :
    (u : Text) (items : List (List ℕ)) (s : Srd) (n : ℕ)
    → s.info.detail u ≡ pos n
    → (after_items items s).info.detail u ≡ pos (n + count u items)
unfolding count ◌+ℤ◌
after_items-detail u [] s n e = ground arith
after_items-detail u (item ∷ items) s n e = ground (
  arith,
  after_items-detail u items
      (record s {
        hashs = s.hashs ++ item ∷ [];
        info = record (s.info) { detail = add_detail s.info.detail (uuid_of item) (pos 1) };
      })
      (n + (if text_eq u (uuid_of item) then 1 else 0)),
)

-- What the entries leave behind in an emptied workload.
restored_items :
    (items : List (List ℕ)) (t : Srd)
    → items ≢ []
    → All IsItem items
    → let (r, status) = restore_srd (some (written items)) t in
      (status ≡ success) × (r.hashs ≡ items) × IsCounted r × (r.shown ≡ r.info)
unfolding restore_srd show_info clean_srd written
restored_items [] t ne h = absurd (ne refl)
restored_items (item ∷ items) t ne h =
    let all = item ∷ items in
    let e = after_items-hashs all (clean_srd t) in
    rw (restore_loop-written all (clean_srd t) h, restore_srd)
      (
        refl,
        e,
        record {
          total = refl;
          each = λ u.
              let zero_count : 0 + count u all ≡ count u all = omega arith in
              after_items-detail u all (clean_srd t) 0 refl
              ∙ ap pos zero_count
              ∙ ap (λ xs. pos (count u xs)) (sym e);
        },
        refl,
      )

-- What `serialize_srd` writes of entries of `SRD_LENGTH` bytes, `restore_srd` reads back into any state: the same entries in the same order, with right figures that the app is told.
pub restore_srd-serialize_srd :
    (s t : Srd)
    → s.hashs ≢ []
    → All IsItem s.hashs
    → let (r, status) = restore_srd (some (serialize_srd s)) t in
      (status ≡ success) × (r.hashs ≡ s.hashs) × IsCounted r × (r.shown ≡ r.info)
unfolding serialize_srd written
restore_srd-serialize_srd s t ne h = restored_items s.hashs t ne h
