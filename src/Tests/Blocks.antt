-- ===== src/Tests/Blocks.antt =====
-- Blocks of files at concrete inputs.
use spacex_storage.Prelude.{
  ℕ, ◌+◌, ◌<◌, ◌^◌, ◌≡◌, ◌≢◌, refl, true, Option, none, some, List, [], ◌∷◌, map, pos, ◌+ℤ◌, Text,
  length, All, compare_text, text_eq, arith,
}
use spacex_storage.Status.{success}
use spacex_storage.Hex.{hex_string_to_bytes}
use spacex_storage.Base58.Defs.{hash_to_cid, encode_sized, push_bytes, spread, zeros}
use spacex_storage.Workload.Defs.{PendingFile}
use spacex_storage.Storage.Pending.{no_blocks, add_block, add_num, all_sealed}
use spacex_storage.Storage.Block.Defs.{
  hashs_of, overrun, stuck, get_hashs_from_block, read_links, read_link,
}
use spacex_storage.Storage.Block.Safe.{get_hashs_from_block_safe}
use spacex_storage.Storage.Block.RoundTrip.{
  LinkOf, IsLinkOf, write_link, write_links, get_hashs_from_block-write_links,
}
use spacex_storage.Storage.Seal.Defs.{seal_block, seal_plain, add_children, add_meta}
use spacex_storage.Storage.Seal.Balance.{
  Arrived, one_if, seal_all, arrivals, links, seal_all_complete,
}
use spacex_storage.Tests.Data.{sum_hash, wide}

-- A hash of 32 bytes.
abbrev some_hash : List ℕ
some_hash =
    1 ∷ 2 ∷ 3 ∷ 4 ∷ 5 ∷ 6 ∷ 7 ∷ 8 ∷ 9 ∷ 10 ∷ 11 ∷ 12 ∷ 13 ∷ 14 ∷ 15 ∷ 16 ∷ 17 ∷ 18 ∷ 19 ∷ 20 ∷ 21
    ∷ 22 ∷ 23 ∷ 24 ∷ 25 ∷ 26 ∷ 27 ∷ 28 ∷ 29 ∷ 30 ∷ 31 ∷ 32 ∷ []

abbrev some_link : LinkOf
some_link = record { hash = some_hash; rest = 0x18 ∷ 5 ∷ [] }

abbrev two_links : List LinkOf
two_links = some_link ∷ some_link ∷ []

two_links-AreLinks : All IsLinkOf two_links
two_links-AreLinks = ((refl, omega arith), ((refl, omega arith), tt))

two_links_fit : length (write_links two_links (0x0a ∷ 1 ∷ [])) < 2 ^ 31
unfolding write_links write_link
two_links_fit = omega arith

get_hashs_from_block_safe_example :
    (get_hashs_from_block wide (λ _. true) (0x12 ∷ 200 ∷ []) ≢ overrun)
    × (get_hashs_from_block wide (λ _. true) (0x12 ∷ 200 ∷ []) ≢ stuck)
get_hashs_from_block_safe_example = get_hashs_from_block_safe wide (λ _. true) (0x12 ∷ 200 ∷ [])

get_hashs_from_block-write_links_example :
    get_hashs_from_block wide (λ _. true) (write_links two_links (0x0a ∷ 1 ∷ []))
    ≡ hashs_of (map (λ l. l.hash) two_links)
get_hashs_from_block-write_links_example =
    get_hashs_from_block-write_links wide two_links (1 ∷ []) two_links-AreLinks two_links_fit

-- A block without links, whose sealing goes well.
abbrev leaf : Arrived
leaf = record {
  outside = record {
    opened = (success, success, []);
    link_alloc = λ _. true;
    sealed = (success, 5 ∷ []);
    uuid_alloc = true;
    saved = (success, b'0' ∷ b'1' ∷ []);
  };
  plain = 0x0a ∷ 1 ∷ [];
}

abbrev or_empty : Option Text → Text
or_empty none = []
or_empty (some t) = t

abbrev leaf_cid : Text
leaf_cid = or_empty (hash_to_cid (0x0a ∷ []))

abbrev leaf_done : PendingFile
leaf_done = record {
  blocks = (leaf_cid, pos 0) ∷ [];
  hash = 1 ∷ 5 ∷ [];
  size = pos 2;
  sealed_size = pos 1;
  block_num = pos 1;
}

leaf_sealed :
    seal_all sum_hash wide (leaf ∷ []) (add_block leaf_cid (pos 1) no_blocks) ≡ some leaf_done
unfolding seal_all seal_block seal_plain add_children add_meta add_num hash_to_cid encode_sized
    push_bytes spread zeros get_hashs_from_block read_links read_link hex_string_to_bytes
    compare_text ◌+ℤ◌
leaf_sealed = refl

leaf_complete : all_sealed leaf_done.blocks ≡ true
unfolding all_sealed
leaf_complete = refl

seal_all_complete_example :
    arrivals sum_hash wide leaf_cid (leaf ∷ [])
    ≡ links sum_hash wide leaf_cid (leaf ∷ []) + one_if (text_eq leaf_cid leaf_cid)
seal_all_complete_example =
    seal_all_complete sum_hash wide leaf_cid leaf_cid (leaf ∷ []) leaf_done leaf_sealed
      leaf_complete
