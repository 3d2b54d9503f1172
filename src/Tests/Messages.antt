-- ===== src/Tests/Messages.antt =====
-- The wire protocol at concrete messages.
use ferry.Prelude.{
  ℕ, ◌≡◌, ◌↔◌, ◌⊎◌, ap, zero, suc, length, ◌≤◌, ◌<◌, refl, [], ◌∷◌, ◌++◌, Bytes, bytes_eq, ok, err,
  arith,
}
use ferry.Store.Format.{
  blob_to_u8, data_chunk, tree_node, pack_meta, write_header, parse_header, le_bytes, from_le_bytes,
}
use ferry.Store.Format.Laws.{parse_header-write_header}
use ferry.Store.Reader.{run, mapping, take_n, fail_if, pure, u8, rest}
use ferry.Proto.Error.{frame_too_large, violation}
use ferry.Proto.Version.{version_major, version_minor, negotiate, negotiate_iff, negotiate_agree}
use ferry.Proto.Frame.{
  max_frame_body, be_bytes, oversized_refused, read_body, write_body, read_body-write_body,
}
use ferry.Proto.Wire.{FrameBody, frame_encode, frame_parse}
use ferry.Proto.Wire.Laws.{IsFrame, frame_parse_iff}
use ferry.Proto.Handshake.{
  HelloAck, IsHelloAck, hello_ack_encode, hello_ack_parse, Hello, IsHello, hello_encode,
  hello_parse, FolderOffer, IsFolderOffer, folder_offer_encode, folder_offer_parse,
}
use ferry.Proto.Handshake.Laws.{hello_ack_parse_iff, hello_parse_iff, folder_offer_parse_iff}
use ferry.Proto.Transfer.{
  RequestItems, IsRequestItems, request_items_encode, request_items_parse, RequestPacks,
  IsRequestPacks, request_packs_encode, request_packs_parse, BatchItem, is_empty, item_batch_encode,
  item_batch_parse, PackItem, IsPackItem, pack_item_encode, pack_item_parse,
}
use ferry.Proto.Transfer.Laws.Requests.{request_items_parse_iff, request_packs_parse_iff}
use ferry.Proto.Transfer.Laws.Batches.{
  IsBatch, batch_bytes, item_batch_parse_iff, empty_blob_asymmetry, pack_item_parse_iff,
}
use ferry.Tests.Data.{all_bytes_sound, id_of, folder_of}

abbrev frame : FrameBody
frame = record { msg_type = 11; version = 256; payload = 0 ∷ [] }

abbrev frame_bytes : Bytes
frame_bytes = b'F' ∷ b'R' ∷ b'W' ∷ b'1' ∷ 11 ∷ 0 ∷ 1 ∷ 0 ∷ []

frame_parse_iff_example :
    (run frame_parse frame_bytes ≡ ok frame) ↔ ((frame_bytes ≡ frame_encode frame) × IsFrame frame)
frame_parse_iff_example =
    frame_parse_iff frame_bytes frame (omega arith) (all_bytes_sound frame_bytes refl)

frame_parses : run frame_parse frame_bytes ≡ ok frame
unfolding frame_parse ferry.Store.Reader.◌>>=◌ mapping take_n fail_if bytes_eq pure u8 rest
    from_le_bytes
frame_parses = refl

abbrev hello : Hello
hello = record { version = 256; flags = 1; eph_pub = id_of 1; stat_pub = id_of 2; nonce = id_of 3 }

abbrev hello_bytes : Bytes
hello_bytes = 0 ∷ 1 ∷ 1 ∷ 0 ∷ 0 ∷ 0 ∷ 0 ∷ 0 ∷ 0 ∷ 0 ∷ (id_of 1 ++ id_of 2 ++ id_of 3)

hello_parse_iff_example :
    (run hello_parse hello_bytes ≡ ok hello) ↔ ((hello_bytes ≡ hello_encode hello) × IsHello hello)
hello_parse_iff_example =
    hello_parse_iff hello_bytes hello (omega arith) (all_bytes_sound hello_bytes refl)

abbrev offer : FolderOffer
offer = record { folder_id = folder_of 7; manifest_id = id_of 8; reserved = 0 }

abbrev offer_bytes : Bytes
offer_bytes = folder_of 7 ++ id_of 8 ++ (0 ∷ 0 ∷ 0 ∷ 0 ∷ [])

folder_offer_parse_iff_example :
    (run folder_offer_parse offer_bytes ≡ ok offer)
    ↔ ((offer_bytes ≡ folder_offer_encode offer) × IsFolderOffer offer)
folder_offer_parse_iff_example =
    folder_offer_parse_iff offer_bytes offer (omega arith) (all_bytes_sound offer_bytes refl)

abbrev items : RequestItems
items = record {
  folder_id = folder_of 7;
  items = (tree_node, id_of 4) ∷ (data_chunk, id_of 5) ∷ [];
}

abbrev items_bytes : Bytes
items_bytes = folder_of 7 ++ (2 ∷ 0 ∷ 0 ∷ 0 ∷ 2 ∷ (id_of 4 ++ (1 ∷ id_of 5)))

request_items_parse_iff_example :
    (run request_items_parse items_bytes ≡ ok items)
    ↔ ((request_items_encode items ≡ ok items_bytes) × IsRequestItems items)
request_items_parse_iff_example =
    request_items_parse_iff items_bytes items (omega arith) (all_bytes_sound items_bytes refl)

abbrev packs : RequestPacks
packs = record { folder_id = folder_of 7; packs = id_of 4 ∷ [] }

abbrev packs_bytes : Bytes
packs_bytes = folder_of 7 ++ (1 ∷ 0 ∷ 0 ∷ 0 ∷ id_of 4)

request_packs_parse_iff_example :
    (run request_packs_parse packs_bytes ≡ ok packs)
    ↔ ((request_packs_encode packs ≡ ok packs_bytes) × IsRequestPacks packs)
request_packs_parse_iff_example =
    request_packs_parse_iff packs_bytes packs (omega arith) (all_bytes_sound packs_bytes refl)

abbrev blob : BatchItem
blob = record { kind = data_chunk; id = id_of 4; bytes = 9 ∷ 8 ∷ [] }

abbrev blob_bytes : Bytes
blob_bytes = 1 ∷ 0 ∷ 0 ∷ 0 ∷ 1 ∷ (id_of 4 ++ (2 ∷ 0 ∷ 0 ∷ 0 ∷ 0 ∷ 0 ∷ 0 ∷ 0 ∷ 9 ∷ 8 ∷ []))

item_batch_parse_iff_example :
    (run item_batch_parse blob_bytes ≡ ok (blob ∷ []))
    ↔ ((item_batch_encode (blob ∷ []) ≡ ok blob_bytes) × IsBatch (blob ∷ []))
unfolding is_empty
item_batch_parse_iff_example =
    item_batch_parse_iff blob_bytes (blob ∷ []) (omega arith) (all_bytes_sound blob_bytes refl)
      (refl, tt)

abbrev hollow : BatchItem
hollow = record { kind = data_chunk; id = id_of 4; bytes = [] }

hollow-IsBatch : IsBatch (blob ∷ hollow ∷ [])
hollow-IsBatch = record {
  few = omega arith;
  each = (
    record { id_array = (refl, all_bytes_sound (id_of 4) refl); bytes_fit = omega arith },
    (record { id_array = (refl, all_bytes_sound (id_of 4) refl); bytes_fit = omega arith }, tt),
  );
}

empty_blob_asymmetry_example :
    (item_batch_encode (blob ∷ hollow ∷ []) ≡ err (violation "empty blob cannot exist"))
    × (run item_batch_parse (batch_bytes (blob ∷ hollow ∷ [])) ≡ ok (blob ∷ hollow ∷ []))
unfolding is_empty le_bytes blob_to_u8
empty_blob_asymmetry_example =
    empty_blob_asymmetry (blob ∷ []) [] hollow refl hollow-IsBatch
      (all_bytes_sound (batch_bytes (blob ∷ hollow ∷ [])) refl) (omega arith)

abbrev pack : PackItem
pack = record { pack = id_of 4; bytes = 5 ∷ [] }

abbrev pack_bytes : Bytes
pack_bytes = id_of 4 ++ (1 ∷ 0 ∷ 0 ∷ 0 ∷ 5 ∷ [])

pack_item_parse_iff_example :
    (run pack_item_parse pack_bytes ≡ ok pack)
    ↔ ((pack_bytes ≡ pack_item_encode pack) × IsPackItem pack)
pack_item_parse_iff_example =
    pack_item_parse_iff pack_bytes pack (omega arith) (all_bytes_sound pack_bytes refl)

read_body-write_body_example :
    (f : Bytes) × (write_body (1 ∷ 2 ∷ []) ≡ ok f)
    × (read_body (f ++ (9 ∷ [])) ≡ ok (1 ∷ 2 ∷ [], 9 ∷ []))
read_body-write_body_example = read_body-write_body (1 ∷ 2 ∷ []) (9 ∷ []) (omega arith)

negotiate_iff_example : (negotiate 0x0102 0x0101 ≡ ok 0x0101) ↔ (
    (version_major 0x0102 ≡ version_major 0x0101)
    × (version_major 0x0101 ≡ version_major 0x0102)
    × (0x0101 < 65536)
    × (version_minor 0x0101 ≤ version_minor 0x0102)
    × (version_minor 0x0101 ≤ version_minor 0x0101)
    × ((◌≡◌ {A = ℕ} 0x0101 0x0102) ⊎ (◌≡◌ {A = ℕ} 0x0101 0x0101)))
negotiate_iff_example = negotiate_iff 0x0102 0x0101 0x0101 (omega arith) (omega arith)

negotiate_agree_example : negotiate 0x0101 0x0102 ≡ ok 0x0101
unfolding negotiate
negotiate_agree_example = negotiate_agree 0x0102 0x0101 0x0101 refl

parse_header-write_header_example : parse_header (write_header pack_meta ++ (1 ∷ [])) ≡ ok pack_meta
parse_header-write_header_example = parse_header-write_header pack_meta (1 ∷ [])

abbrev ack : HelloAck
ack = record {
  version = 256;
  agreed = 256;
  flags = 1;
  eph_pub = id_of 1;
  stat_pub = id_of 2;
  nonce = id_of 3;
}

abbrev ack_bytes : Bytes
ack_bytes = 0 ∷ 1 ∷ 0 ∷ 1 ∷ 1 ∷ 0 ∷ 0 ∷ 0 ∷ 0 ∷ 0 ∷ 0 ∷ 0 ∷ (id_of 1 ++ id_of 2 ++ id_of 3)

hello_ack_parse_iff_example :
    (run hello_ack_parse ack_bytes ≡ ok ack) ↔ ((ack_bytes ≡ hello_ack_encode ack) × IsHelloAck ack)
hello_ack_parse_iff_example =
    hello_ack_parse_iff ack_bytes ack (omega arith) (all_bytes_sound ack_bytes refl)

-- A body of each length.
body_of : (n : ℕ) → (body : Bytes) × (length body ≡ n)
body_of zero = ([], refl)
body_of (suc n) = (0 ∷ (body_of n).0, ap suc (body_of n).1)

oversized_refused_example :
    (write_body (body_of 67108865).0
      ≡ err (frame_too_large (length (body_of 67108865).0) max_frame_body))
    × (read_body (be_bytes 4 67108866 ++ []) ≡ err (frame_too_large 67108866 max_frame_body))
oversized_refused_example =
    oversized_refused (body_of 67108865).0 [] 67108866 (omega (arith, (body_of 67108865).1))
      (omega arith) (omega arith)
