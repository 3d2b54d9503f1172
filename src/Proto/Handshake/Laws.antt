-- ===== src/Proto/Handshake/Laws.antt =====
-- The handshake messages: each is parsed exactly when it is an encoding.
use ferry.Prelude.{
  ◌<◌, ◌≡◌, ◌↔◌, sym, ap, subst, [], ◌++◌, append_assoc, append-nil, Bytes, IsByte, All, length,
  length-append, ok, true, arith, not, ◌==◌, ==_iff,
}
use ferry.Store.Format.{le_bytes}
use ferry.Store.Format.Laws.{length-le_bytes}
use ferry.Store.Reader.{u32, u64, array, usize_limit, run}
use ferry.Store.Reader.Laws.{mapping-Reads, mapping-Parses}
use ferry.Store.Reader.Laws.Primitives.{
  Word, Slice, u32-Reads, u32-Parses, u64-Reads, u64-Parses, array-Reads, array-Parses,
}
use ferry.Store.Reader.Laws.Whole.{
  Accepts, Codec, >>=-Accepts, >>=-Exact, end-Accepts, end_check-Exact, end_pure-Exact,
  pure-Accepts, fail_if-Reads, run_iff, run-Accepts,
}
use ferry.Proto.Wire.Laws.{rd_u16-Reads, rd_u16-Parses}
use ferry.Proto.Handshake.{
  Hello, IsHello, hello_encode, hello_parse, HelloAck, IsHelloAck, hello_ack_encode,
  hello_ack_parse, FolderOffer, IsFolderOffer, folder_offer_encode, folder_offer_parse,
}

hello_encode_parts :
    (h : Hello)
    → hello_encode h
      ≡ le_bytes 2 h.version
        ++ (le_bytes 8 h.flags ++ (h.eph_pub ++ (h.stat_pub ++ (h.nonce ++ []))))
unfolding hello_encode
hello_encode_parts h = simp (append_assoc, append-nil)

IsHello-Codec : Codec hello_parse hello_encode IsHello
unfolding hello_parse
IsHello-Codec = record {
  accepts = λ h w.
      subst (λ bs. Accepts hello_parse bs h) (sym (hello_encode_parts h))
        (>>=-Accepts _ (le_bytes 2 h.version) _ (rd_u16-Reads h.version w.version_fits) (
          >>=-Accepts _ (le_bytes 8 h.flags) _
            (mapping-Reads _ (le_bytes 8 h.flags) (u64-Reads h.flags w.flags_fit))
            (>>=-Accepts _ h.eph_pub _
              (mapping-Reads _ h.eph_pub (array-Reads 32 h.eph_pub w.eph_pub_array.0))
              (>>=-Accepts _ h.stat_pub _
                (mapping-Reads _ h.stat_pub (array-Reads 32 h.stat_pub w.stat_pub_array.0))
                (>>=-Accepts _ h.nonce _
                  (mapping-Reads _ h.nonce (array-Reads 32 h.nonce w.nonce_array.0))
                  (end-Accepts _ _ (pure-Accepts h [])))))));
  exact = >>=-Exact _ _ (Word 2) _ rd_u16-Parses λ version y1 p1.
      >>=-Exact _ _ (Word 8) _ (mapping-Parses _ u64 (Word 8) u64-Parses) λ flags y2 p2.
        >>=-Exact _ _ (Slice 32) _ (mapping-Parses _ (array 32) (Slice 32) (array-Parses 32))
          λ eph y3 p3.
            >>=-Exact _ _ (Slice 32) _ (mapping-Parses _ (array 32) (Slice 32) (array-Parses 32))
              λ stat y4 p4.
                >>=-Exact _ _ (Slice 32) _
                  (mapping-Parses _ (array 32) (Slice 32) (array-Parses 32))
                  λ nonce y5 p5.
                    let h : Hello = record {
                      version = version;
                      flags = flags;
                      eph_pub = eph;
                      stat_pub = stat;
                      nonce = nonce;
                    } in
                    end_pure-Exact _ h _ (
                      cc (hello_encode_parts h, p1.0, p2.0, p3.0, p4.0, p5.0),
                      record {
                        version_fits = p1.1;
                        flags_fit = p2.1;
                        eph_pub_array = (p3.1, p3.2);
                        stat_pub_array = (p4.1, p4.2);
                        nonce_array = (p5.1, p5.2);
                      },
                    );
}

-- A payload parses as the hello `h` exactly when it is the encoding of `h` and the fields fit.
pub hello_parse_iff :
    (bs : Bytes) (h : Hello)
    → length bs < usize_limit
    → All IsByte bs
    → (run hello_parse bs ≡ ok h) ↔ ((bs ≡ hello_encode h) × IsHello h)
hello_parse_iff = run_iff hello_parse hello_encode IsHello IsHello-Codec

hello_ack_encode_parts :
    (h : HelloAck)
    → hello_ack_encode h
      ≡ le_bytes 2 h.version
        ++ (le_bytes 2 h.agreed
            ++ (le_bytes 8 h.flags ++ (h.eph_pub ++ (h.stat_pub ++ (h.nonce ++ [])))))
unfolding hello_ack_encode
hello_ack_encode_parts h = simp (append_assoc, append-nil)

IsHelloAck-Codec : Codec hello_ack_parse hello_ack_encode IsHelloAck
unfolding hello_ack_parse
IsHelloAck-Codec = record {
  accepts = λ h w.
      subst (λ bs. Accepts hello_ack_parse bs h) (sym (hello_ack_encode_parts h))
        (>>=-Accepts _ (le_bytes 2 h.version) _ (rd_u16-Reads h.version w.version_fits) (
          >>=-Accepts _ (le_bytes 2 h.agreed) _ (rd_u16-Reads h.agreed w.agreed_fits) (
            >>=-Accepts _ (le_bytes 8 h.flags) _
              (mapping-Reads _ (le_bytes 8 h.flags) (u64-Reads h.flags w.flags_fit))
              (>>=-Accepts _ h.eph_pub _
                (mapping-Reads _ h.eph_pub (array-Reads 32 h.eph_pub w.eph_pub_array.0))
                (>>=-Accepts _ h.stat_pub _
                  (mapping-Reads _ h.stat_pub (array-Reads 32 h.stat_pub w.stat_pub_array.0))
                  (>>=-Accepts _ h.nonce _
                    (mapping-Reads _ h.nonce (array-Reads 32 h.nonce w.nonce_array.0))
                    (end-Accepts _ _ (pure-Accepts h []))))))));
  exact = >>=-Exact _ _ (Word 2) _ rd_u16-Parses λ version y1 p1.
      >>=-Exact _ _ (Word 2) _ rd_u16-Parses λ agreed y2 p2.
        >>=-Exact _ _ (Word 8) _ (mapping-Parses _ u64 (Word 8) u64-Parses) λ flags y3 p3.
          >>=-Exact _ _ (Slice 32) _ (mapping-Parses _ (array 32) (Slice 32) (array-Parses 32))
            λ eph y4 p4.
              >>=-Exact _ _ (Slice 32) _ (mapping-Parses _ (array 32) (Slice 32) (array-Parses 32))
                λ stat y5 p5.
                  >>=-Exact _ _ (Slice 32) _
                    (mapping-Parses _ (array 32) (Slice 32) (array-Parses 32))
                    λ nonce y6 p6.
                      let h : HelloAck = record {
                        version = version;
                        agreed = agreed;
                        flags = flags;
                        eph_pub = eph;
                        stat_pub = stat;
                        nonce = nonce;
                      } in
                      end_pure-Exact _ h _ (
                        cc (hello_ack_encode_parts h, p1.0, p2.0, p3.0, p4.0, p5.0, p6.0),
                        record {
                          version_fits = p1.1;
                          agreed_fits = p2.1;
                          flags_fit = p3.1;
                          eph_pub_array = (p4.1, p4.2);
                          stat_pub_array = (p5.1, p5.2);
                          nonce_array = (p6.1, p6.2);
                        },
                      );
}

-- A payload parses as the answer `h` exactly when it is the encoding of `h` and the fields fit.
pub hello_ack_parse_iff :
    (bs : Bytes) (h : HelloAck)
    → length bs < usize_limit
    → All IsByte bs
    → (run hello_ack_parse bs ≡ ok h) ↔ ((bs ≡ hello_ack_encode h) × IsHelloAck h)
hello_ack_parse_iff = run_iff hello_ack_parse hello_ack_encode IsHelloAck IsHelloAck-Codec

folder_offer_encode_parts :
    (o : FolderOffer)
    → folder_offer_encode o ≡ o.folder_id ++ (o.manifest_id ++ (le_bytes 4 o.reserved ++ []))
unfolding folder_offer_encode
folder_offer_encode_parts o = simp (append_assoc, append-nil)

IsFolderOffer-Codec : Codec folder_offer_parse folder_offer_encode IsFolderOffer
unfolding folder_offer_parse
IsFolderOffer-Codec = record {
  accepts = λ o w.
      let zero_word : (o.reserved == 0) ≡ true = (==_iff o.reserved 0).1 w.reserved_zero in
      subst (λ bs. Accepts folder_offer_parse bs o) (sym (folder_offer_encode_parts o))
        (>>=-Accepts _ o.folder_id _
          (mapping-Reads _ o.folder_id (array-Reads 16 o.folder_id w.folder_id_array.0))
          (>>=-Accepts _ o.manifest_id _
            (mapping-Reads _ o.manifest_id (array-Reads 32 o.manifest_id w.manifest_id_array.0))
            (>>=-Accepts _ (le_bytes 4 o.reserved) _
              (mapping-Reads _ (le_bytes 4 o.reserved)
                (u32-Reads o.reserved (omega (arith, w.reserved_zero))))
              (end-Accepts _ _ (
                >>=-Accepts _ [] [] (fail_if-Reads _ _ (ap not zero_word)) (pure-Accepts o []))))));
  exact =
      >>=-Exact _ _ (Slice 16) _ (mapping-Parses _ (array 16) (Slice 16) (array-Parses 16))
        λ folder y1 p1.
          >>=-Exact _ _ (Slice 32) _ (mapping-Parses _ (array 32) (Slice 32) (array-Parses 32))
            λ manifest y2 p2.
              >>=-Exact _ _ (Word 4) _ (mapping-Parses _ u32 (Word 4) u32-Parses) λ reserved y3 p3.
                let o : FolderOffer = record {
                  folder_id = folder;
                  manifest_id = manifest;
                  reserved = reserved;
                } in
                end_check-Exact _ _ _ o _ λ passed. (
                  cc (folder_offer_encode_parts o, p1.0, p2.0, p3.0),
                  record {
                    folder_id_array = (p1.1, p1.2);
                    manifest_id_array = (p2.1, p2.2);
                    reserved_zero = ground arith;
                  },
                );
}

-- A payload parses as the offer `o` exactly when it is the encoding of `o` and its reserved word is 0.
pub folder_offer_parse_iff :
    (bs : Bytes) (o : FolderOffer)
    → length bs < usize_limit
    → All IsByte bs
    → (run folder_offer_parse bs ≡ ok o) ↔ ((bs ≡ folder_offer_encode o) × IsFolderOffer o)
folder_offer_parse_iff =
    run_iff folder_offer_parse folder_offer_encode IsFolderOffer IsFolderOffer-Codec

-- An offer takes 52 bytes.
pub length-folder_offer_encode :
    (o : FolderOffer) → IsFolderOffer o → length (folder_offer_encode o) ≡ 52
length-folder_offer_encode o w = omega (
  arith,
  ap length (folder_offer_encode_parts o),
  length-append o.folder_id (o.manifest_id ++ (le_bytes 4 o.reserved ++ [])),
  length-append o.manifest_id (le_bytes 4 o.reserved ++ []),
  length-append (le_bytes 4 o.reserved) [],
  length-le_bytes 4 o.reserved,
  w.folder_id_array.0,
  w.manifest_id_array.0,
)

-- The encoding of an offer parses as that offer.
pub folder_offer_parse-encode :
    (o : FolderOffer) → IsFolderOffer o → run folder_offer_parse (folder_offer_encode o) ≡ ok o
folder_offer_parse-encode o w =
    run-Accepts folder_offer_parse (folder_offer_encode o) o (IsFolderOffer-Codec.accepts o w)
      (omega (arith, length-folder_offer_encode o w))
