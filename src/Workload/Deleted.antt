-- ===== src/Workload/Deleted.antt =====
-- `deal_deleted_file` (enclave/workload/Workload.cpp): the files that the chain no longer counts on
-- leave the vector.
use spacex_storage.Prelude.{
  Bool, true, false, not, ◌&&◌, ◌||◌, Option, none, some, List, [], ◌∷◌, ◌≡◌, refl, ap, ◌∙◌, Text,
  compare_text, Ordering-cases, compare_text_refl, compare_text-flip, Before, Before-trans, text_eq,
  text_eq_lem, text_eq_refl, All, get_elem?, ◌==◌, if◌then◌else◌, inl, inr, Bool-cases, arith,
}
use spacex_storage.Status.{FileStatus, unverified, lost, deleted}
use spacex_storage.Files.Defs.{SealedFile, is_file_dup, del_file_at, IsSorted}
use spacex_storage.Files.Order.{find}
use spacex_storage.Files.Place.{missing, present, lookup, find-del_file_at}
use spacex_storage.Workload.Cids.{insert_cid, has_cid, erase_cid, has_cid-insert_cid}
use spacex_storage.Workload.Defs.{Workload}

-- `is_in_deleted_file_buffer`
unfoldable pub is_in_deleted_file_buffer : Text → Workload → Bool
is_in_deleted_file_buffer cid w = has_cid cid w.deleted_cids

-- The deletion is known to the chain, or the chain does not count on the file.
abbrev pub is_gone : FileStatus → Bool
is_gone s =
    (s.current == deleted && s.origin == deleted)
    || (s.current == deleted && s.origin == unverified)
    || (s.current == deleted && s.origin == lost)

-- One round of the loop: the vector, and the content ids that stay in the buffer.
unfoldable pub deal_one : Text → List SealedFile → List Text → List SealedFile × List Text
deal_one cid files left =
    let (dup, at) = is_file_dup cid files in
    if dup
    then elim (get_elem? files at) [
      | none ↦ (files, left)
      | some file ↦
          if is_gone file.status then (del_file_at at files, erase_cid cid left) else (files, left)
    ]
    else (files, left)

unfoldable pub deal_loop : List Text → List SealedFile → List Text → List SealedFile × List Text
unfolding deal_one
deal_loop [] files left = (files, left)
deal_loop (cid ∷ cids) files left =
    let (files', left') = deal_one cid files left in deal_loop cids files' left'

-- `insert(left.begin(), left.end())`
unfoldable pub insert_cids : List Text → List Text → List Text
insert_cids [] ds = ds
insert_cids (cid ∷ cids) ds = insert_cids cids (insert_cid cid ds)

-- `deal_deleted_file`; the buffer is emptied at first.
unfoldable pub deal_deleted_file : Workload → Workload
unfolding deal_loop insert_cids
deal_deleted_file w =
    let (files, left) = deal_loop w.deleted_cids w.sealed_files w.deleted_cids in
    record w { sealed_files = files; deleted_cids = insert_cids left [] }

-- A set of content ids stands in ascending order.
abbrev pub IsCidSet : List Text → Type 0
IsCidSet [] = Unit
IsCidSet (d ∷ ds) = All (Before d) ds × IsCidSet ds

All-Before-mono : (b c : Text) (ds : List Text) → Before b c → All (Before c) ds → All (Before b) ds
All-Before-mono b c [] h k = tt
All-Before-mono b c (d ∷ ds) h k = (Before-trans b c d h k.0, All-Before-mono b c ds h k.1)

has_cid-Before : (c : Text) (ds : List Text) → All (Before c) ds → has_cid c ds ≡ false
unfolding has_cid
has_cid-Before c [] h = refl
has_cid-Before c (d ∷ ds) h =
    ground (arith, text_eq_lem c d, compare_text_refl c, has_cid-Before c ds h.1)

has_cid-erase_cid :
    (c cid : Text) (ds : List Text)
    → IsCidSet ds
    → has_cid c (erase_cid cid ds) ≡ (if text_eq c cid then false else has_cid c ds)
unfolding has_cid erase_cid
has_cid-erase_cid c cid [] s = ground arith
has_cid-erase_cid c cid (d ∷ ds) s = ground (
  arith,
  text_eq_lem c cid,
  text_eq_lem cid d,
  text_eq_lem c d,
  text_eq_refl d,
  has_cid-Before d ds s.0,
  has_cid-erase_cid c cid ds s.1,
)

All-erase_cid :
    (b cid : Text) (ds : List Text) → All (Before b) ds → All (Before b) (erase_cid cid ds)
unfolding erase_cid
All-erase_cid b cid [] k = tt
All-erase_cid b cid (d ∷ ds) k = ground (arith, k, All-erase_cid b cid ds k.1)

erase_cid-IsCidSet : (cid : Text) (ds : List Text) → IsCidSet ds → IsCidSet (erase_cid cid ds)
unfolding erase_cid
erase_cid-IsCidSet cid [] s = tt
erase_cid-IsCidSet cid (d ∷ ds) s =
    ground (arith, s, All-erase_cid d cid ds s.0, erase_cid-IsCidSet cid ds s.1)

All-insert_cid :
    (b cid : Text) (ds : List Text)
    → Before b cid
    → All (Before b) ds
    → All (Before b) (insert_cid cid ds)
unfolding insert_cid
All-insert_cid b cid [] h k = (h, tt)
All-insert_cid b cid (d ∷ ds) h k = ground (arith, h, k, All-insert_cid b cid ds h k.1)

pub insert_cid-IsCidSet : (cid : Text) (ds : List Text) → IsCidSet ds → IsCidSet (insert_cid cid ds)
unfolding insert_cid
insert_cid-IsCidSet cid [] s = (tt, tt)
insert_cid-IsCidSet cid (d ∷ ds) s = elim (Ordering-cases (compare_text cid d)) [
  | inl e ↦ rw (e, insert_cid) ((e, All-Before-mono cid d ds e s.0), s)
  | inr (inl e) ↦ rw (e, insert_cid) s
  | inr (inr e) ↦
      rw (e, insert_cid)
        (All-insert_cid d cid ds (compare_text-flip cid d e) s.0, insert_cid-IsCidSet cid ds s.1)
]

insert_cids-IsCidSet : (cs ds : List Text) → IsCidSet ds → IsCidSet (insert_cids cs ds)
unfolding insert_cids
insert_cids-IsCidSet [] ds s = s
insert_cids-IsCidSet (c ∷ cs) ds s =
    insert_cids-IsCidSet cs (insert_cid c ds) (insert_cid-IsCidSet c ds s)

has_cid-insert_cids :
    (c : Text) (cs ds : List Text) → has_cid c (insert_cids cs ds) ≡ (has_cid c cs || has_cid c ds)
unfolding has_cid insert_cids
has_cid-insert_cids c [] ds = refl
has_cid-insert_cids c (d ∷ cs) ds =
    ground (arith, has_cid-insert_cids c cs (insert_cid d ds), has_cid-insert_cid c d ds)

-- Whether the file that a content id finds is gone.
abbrev gone_at : Option SealedFile → Bool
gone_at none = false
gone_at (some file) = is_gone file.status

deal_one-find :
    (c cid : Text) (files : List SealedFile) (left : List Text)
    → IsSorted files
    → IsCidSet left
    → let (files', left') = deal_one cid files left in
      (find c files' ≡ (if text_eq c cid && gone_at (find c files) then none else find c files))
      × (has_cid c left' ≡ (has_cid c left && not (text_eq c cid && gone_at (find c files))))
      × IsSorted files'
      × IsCidSet left'
unfolding deal_one
deal_one-find c cid files left s t = elim (lookup cid files s) [
  | missing dup e ↦ rw (dup, deal_one) (ground (arith, s, t, e, text_eq_lem c cid))
  | present file dup got e lt ↦ elim (Bool-cases (is_gone file.status)) [
    | inl g ↦
        let gone : gone_at (find cid files) ≡ true = ap gone_at e ∙ g in
        rw (dup, got, g, deal_one)
          (ground (
            arith,
            find-del_file_at c cid files s dup,
            has_cid-erase_cid c cid left t,
            erase_cid-IsCidSet cid left t,
            gone,
            text_eq_lem c cid,
          ))
    | inr g ↦
        let stays : gone_at (find cid files) ≡ false = ap gone_at e ∙ g in
        rw (dup, got, g, deal_one) (ground (arith, s, t, stays, text_eq_lem c cid))
  ]
]

and_true : (b : Bool) → b ≡ (b && true)
and_true b = ground arith

deal_loop-find :
    (c : Text) (cids : List Text) (files : List SealedFile) (left : List Text)
    → IsSorted files
    → IsCidSet left
    → let (files', left') = deal_loop cids files left in
      (find c files' ≡ (if has_cid c cids && gone_at (find c files) then none else find c files))
      × (has_cid c left' ≡ (has_cid c left && not (has_cid c cids && gone_at (find c files))))
      × IsSorted files'
      × IsCidSet left'
unfolding deal_loop has_cid
deal_loop-find c [] files left s t = (refl, and_true (has_cid c left), s, t)
deal_loop-find c (cid ∷ cids) files left s t =
    let one = deal_one-find c cid files left s t in
    let rest =
      deal_loop-find c cids (deal_one cid files left).0 (deal_one cid files left).1 one.2 one.3 in
    ground (arith, one, rest)

or_none : (c : Text) (ds : List Text) → (has_cid c ds || has_cid c []) ≡ has_cid c ds
unfolding has_cid
or_none c ds = ground arith

-- A deletion that the chain knows of, or of a file that it does not count: the current status is deleted, and
-- the origin status is deleted, unverified or lost.
unfoldable pub deleted_for_good : Option SealedFile → Bool
deleted_for_good none = false
deleted_for_good (some file) =
    let origin = file.status.origin in
    file.status.current == deleted && (origin == deleted || origin == unverified || origin == lost)

deleted_for_good-gone_at : (found : Option SealedFile) → deleted_for_good found ≡ gone_at found
unfolding deleted_for_good
deleted_for_good-gone_at none = refl
deleted_for_good-gone_at (some file) = ground arith

-- `deal_deleted_file` takes a file out of the sorted vector exactly when its content id is in the buffer, its current status is deleted, and its origin status is deleted, unverified or lost, and takes just these content ids out of the buffer; the vector stays sorted, the buffer a set.
pub deal_deleted_file-find :
    (c : Text) (w : Workload)
    → IsSorted w.sealed_files
    → IsCidSet w.deleted_cids
    → let w' = deal_deleted_file w in
      let goes = has_cid c w.deleted_cids && deleted_for_good (find c w.sealed_files) in
      (find c w'.sealed_files ≡ (if goes then none else find c w.sealed_files))
      × (has_cid c w'.deleted_cids ≡ (has_cid c w.deleted_cids && not goes))
      × IsSorted w'.sealed_files
      × IsCidSet w'.deleted_cids
unfolding deal_deleted_file
deal_deleted_file-find c w s t =
    let loop = deal_loop-find c w.deleted_cids w.sealed_files w.deleted_cids s t in
    let left = (deal_loop w.deleted_cids w.sealed_files w.deleted_cids).1 in
    rw (deleted_for_good-gone_at (find c w.sealed_files)) (
      loop.0,
      has_cid-insert_cids c left [] ∙ (or_none c left ∙ loop.1),
      loop.2,
      insert_cids-IsCidSet left [] tt,
    )
