-- ===== src/Simple/Decode/RoundTrip.antt =====
-- Decoding what was encoded.
use cc_common.Base.{ℕ, zero, suc, ◌+◌, ◌-◌, ◌%◌, ◌^◌, ◌≤◌, ◌<◌, ◌≡◌, refl, ap, ◌∙◌, arith, u64}
use cc_common.Base.{Bool, true, false, ◌==◌, List, [], ◌∷◌, ◌++◌, length, drop, take, append_assoc}
use cc_common.BigEndian.Laws.{digits_value}
use cc_common.Float.{float_of_uint, double_of_uint}
use cc_common.Base.{length-append, get_elem?-drop, length-take, ok}
use cc_common.Value.{
  Value, unset, nil, bool, pos_int, neg_int, float32, float64, str, bytes, arr, map, ext, Items,
  no_items, item, Fields, no_fields, field, count_items, count_fields, host_bytes,
}
use mathlib.Core.Path.{ap₂}
use native.Mathlib.Nat.{add-zero}
use cc_common.Value.Cursor.{Cursor}
use cc_common.Simple.Encode.Wire.{
  digits_of, size_class, int_wire, len_wire, wire, wire_items, wire_fields,
}
use cc_common.Simple.Decode.{
  Kind, decode_len, is_nil, is_true, is_false, is_float32, is_float64, is_pos_int, is_neg_int,
  is_str, is_bytes, is_array, is_map, is_ext, kind, decode_r, decode_items, decode_fields, dispatch,
  read_int, read_array, read_map, read_ext,
}
use cc_common.Simple.Decode.Seen.{
  seen_int, seen, seen_items, seen_fields, trim, trim_items, trim_fields, IsShort, AreShort,
  AreShortFields,
}
use cc_common.Simple.Decode.Parts.{
  kind_pos_int, kind_neg_int, size_class-le, length-host_bytes, entered, int_done, float32_done,
  float64_done, blob_Decodes, take_front, kind_near,
}
use cc_common.Simple.Decode.Reads.{at, within, behind, chk_passes, Header, Header-len_wire}
use cc_common.Simple.Decode.Cost.{
  ap₃, cost-pos, cost_items-pos, cost_fields-pos, GrantsShort, cost, cost_items, cost_fields,
}

module _ (calloc : ℕ → ℕ → Bool) (grants : GrantsShort calloc) (b : List ℕ)
    (small : length b < 2 ^ 63) where
  -- The decoder at `p` gives `v` as it is seen, and stands behind its bytes.
  abbrev pub Decodes : ℕ → ℕ → Value → Type 0
  Decodes fuel p v =
      (w : Value) × (decode_r calloc b fuel true (at p) ≡ ok (w, at (p + length (wire v))))
      × (trim w ≡ seen v)

  abbrev pub DecodesItems : ℕ → ℕ → Items → Type 0
  DecodesItems fuel p xs =
      (ys : Items) × (decode_items calloc b fuel true (count_items xs) (at p)
        ≡ ok (ys, at (p + length (wire_items xs))))
      × (trim_items ys ≡ seen_items xs)

  abbrev pub DecodesFields : ℕ → ℕ → Fields → Type 0
  DecodesFields fuel p fs =
      (gs : Fields) × (decode_fields calloc b fuel true (count_fields fs) (at p)
        ≡ ok (gs, at (p + length (wire_fields fs))))
      × (trim_fields gs ≡ seen_fields fs)

  read_container :
      (desc len p : ℕ) (k : Kind) (entries rest : List ℕ)
      → desc % 8 ≡ 0
      → kind desc ≡ k
      → kind (desc + 1) ≡ k
      → len < 2 ^ 8
      → drop p b ≡ (len_wire desc len ++ entries) ++ rest
      → record {
        hd : Header calloc b small desc len p (entries ++ rest);
        enters :
            (f : ℕ)
            → decode_r calloc b (suc f) true (at p)
              ≡ dispatch calloc b
                  (decode_items calloc b f)
                  (decode_fields calloc b f)
                  true
                  hd.bd
                  (at (p + 1))
                  k;
        end :
            p + length (len_wire desc len) + length entries
            ≡ p + length (len_wire desc len ++ entries);
      }
  read_container desc len p k entries rest h8 k0 k1 lt e =
      let hd =
        Header-len_wire calloc b small desc len p (entries ++ rest) h8 lt
          (e ∙ append_assoc (len_wire desc len) entries rest) in
      record {
        hd = hd;
        enters = λ f. entered calloc b small f p k hd.at_bd (kind_near hd.bd desc k k0 k1 hd.near);
        end = omega (arith, length-append (len_wire desc len) entries);
      }

  array_done :
      (f p bd len q r : ℕ) (ys : Items)
      → decode_len calloc b bd (at (p + 1)) ≡ ok (len, at q)
      → len < 2 ^ 8
      → decode_items calloc b f true len (at q) ≡ ok (ys, at r)
      → read_array calloc b (decode_items calloc b f) true bd (at (p + 1)) ≡ ok (arr ys, at r)
  unfolding read_array
  array_done f p bd len q r ys head lt run = rw (head, (grants len lt).0, run)

  map_done :
      (f p bd len q r : ℕ) (gs : Fields)
      → decode_len calloc b bd (at (p + 1)) ≡ ok (len, at q)
      → len < 2 ^ 8
      → decode_fields calloc b f true len (at q) ≡ ok (gs, at r)
      → read_map calloc b (decode_fields calloc b f) true bd (at (p + 1)) ≡ ok (map gs, at r)
  unfolding read_map
  map_done f p bd len q r gs head lt run = rw (head, (grants len lt).1, run)

  ext_done :
      (p bd tag len q : ℕ) (mem rest : List ℕ)
      → decode_len calloc b bd (at (p + 1)) ≡ ok (len, at q)
      → len < 2 ^ 8
      → len ≤ length mem
      → drop q b ≡ tag ∷ (take len mem ++ rest)
      → (read_ext calloc b true bd (at (p + 1))
          ≡ ok (ext tag (drop (q + 1) b) len, at (q + 1 + len)))
        × (take len (drop (q + 1) b) ≡ take len mem)
  ext_done p bd tag len q mem rest head lt enough e =
      let here = within b q e in
      let size : length (take len mem) ≡ len = length-take len mem enough in
      let inside : q + (1 + len) ≤ length b =
        omega (arith, here, length-append (take len mem) rest, size) in
      let plain : u64 (1 + len) ≡ 1 + len = omega arith in
      let start : u64 (q + 1) ≡ q + 1 = omega (arith, inside) in
      let end : u64 (q + 1 + len) ≡ q + 1 + len = omega (arith, inside) in
      (
        unfold read_ext in
            rw (
              head,
              plain,
              chk_passes calloc b small (1 + len) q inside,
              get_elem?-drop q b e,
              start,
              end,
            ),
        rw (behind b q (tag ∷ []) e) (take_front len mem rest enough),
      )

  item_done :
      (f p q r n : ℕ) (x : Value) (ys : Items)
      → decode_r calloc b f true (at p) ≡ ok (x, at q)
      → decode_items calloc b f true n (at q) ≡ ok (ys, at r)
      → decode_items calloc b (suc f) true (suc n) (at p) ≡ ok (item x ys, at r)
  unfolding decode_r
  item_done f p q r n x ys one rest =
      let more : (suc n == 0) ≡ false = ground arith in
      let left : suc n - 1 ≡ n = omega arith in rw (more, one, left, rest)

  field_done :
      (f p q t r n : ℕ) (k v : Value) (gs : Fields)
      → decode_r calloc b f true (at p) ≡ ok (k, at q)
      → decode_r calloc b f true (at q) ≡ ok (v, at t)
      → decode_fields calloc b f true n (at t) ≡ ok (gs, at r)
      → decode_fields calloc b (suc f) true (suc n) (at p) ≡ ok (field k v gs, at r)
  unfolding decode_r
  field_done f p q t r n k v gs key val rest =
      let more : (suc n == 0) ≡ false = ground arith in
      let left : suc n - 1 ≡ n = omega arith in rw (more, key, val, left, rest)

  int_Decodes :
      (make : ℕ → Value) (desc n f p : ℕ) (rest : List ℕ) (k : Kind)
      → desc % 4 ≡ 0
      → n < 2 ^ 64
      → kind (desc + size_class n) ≡ k
      → ((bd : ℕ) (s : Cursor)
          → dispatch calloc b (decode_items calloc b f) (decode_fields calloc b f) true bd s k
            ≡ read_int calloc b make true bd s)
      → drop p b ≡ int_wire desc n ++ rest
      → decode_r calloc b (suc f) true (at p)
        ≡ ok (make (seen_int n), at (p + length (int_wire desc n)))
  int_Decodes make desc n f p rest k h lt hk case e =
      let e' : drop p b ≡ (desc + size_class n) ∷ (digits_of (2 ^ size_class n) n ++ rest) =
        unfold int_wire in e in
      entered calloc b small f p k e' hk
      ∙ case (desc + size_class n) (at (p + 1))
      ∙ int_done calloc b small make desc n p rest h lt e

  items_end : (f p : ℕ) → decode_items calloc b (suc f) true 0 (at p) ≡ ok (no_items, at (p + 0))
  unfolding decode_r
  items_end f p = rw (add-zero p)

  fields_end : (f p : ℕ) → decode_fields calloc b (suc f) true 0 (at p) ≡ ok (no_fields, at (p + 0))
  unfolding decode_r
  fields_end f p = rw (add-zero p)

  mutual
    unfolding wire cost seen trim kind dispatch

    pub decode-wire :
        (v : Value) (f p : ℕ) (rest : List ℕ)
        → IsShort v
        → cost v ≤ suc f
        → drop p b ≡ wire v ++ rest
        → Decodes (suc f) p v
    decode-wire unset f p rest h c e = absurd h
    decode-wire (nil x) f p rest h c e = (nil true, entered calloc b small f p is_nil e refl, refl)
    decode-wire (bool true) f p rest h c e =
        (bool true, entered calloc b small f p is_true e refl, refl)
    decode-wire (bool false) f p rest h c e =
        (bool false, entered calloc b small f p is_false e refl, refl)
    decode-wire (pos_int n) f p rest h c e = (
      pos_int (seen_int n),
      int_Decodes pos_int 8 n f p rest is_pos_int refl h
          (kind_pos_int (size_class n) (size_class-le n)) (λ bd s. refl) e,
      refl,
    )
    decode-wire (neg_int n) f p rest h c e = (
      neg_int (seen_int n),
      int_Decodes neg_int 12 n f p rest is_neg_int refl h
          (kind_neg_int (size_class n) (size_class-le n)) (λ bd s. refl) e,
      refl,
    )
    decode-wire (float32 w) f p rest h c e = (
      float32 (float_of_uint (digits_value 0 (take 4 (host_bytes w)))),
      entered calloc b small f p is_float32 e refl
          ∙ float32_done calloc b small w p rest e
          ∙ ap (λ q. ok (float32 (float_of_uint (digits_value 0 (take 4 (host_bytes w)))), at q))
              (omega (arith, length-host_bytes w)),
      refl,
    )
    decode-wire (float64 w) f p rest h c e = (
      float64 (double_of_uint (digits_value 0 (host_bytes w))),
      entered calloc b small f p is_float64 e refl
          ∙ float64_done calloc b small w p rest e
          ∙ ap (λ q. ok (float64 (double_of_uint (digits_value 0 (host_bytes w))), at q))
              (omega (arith, length-host_bytes w)),
      refl,
    )
    decode-wire (str mem len) f p rest h c e =
        let (run, same) =
          blob_Decodes calloc b small str 216 len f p mem rest is_str refl refl refl (λ bd s. refl)
            h e in
        (str (drop (p + length (len_wire 216 len)) b) len, run, ap (λ m. str m len) same)
    decode-wire (bytes mem len) f p rest h c e =
        let (run, same) =
          blob_Decodes calloc b small bytes 224 len f p mem rest is_bytes refl refl refl
            (λ bd s. refl) h e in
        (bytes (drop (p + length (len_wire 224 len)) b) len, run, ap (λ m. bytes m len) same)
    decode-wire (arr xs) zero p rest h c e = absurd (omega (arith, cost_items-pos xs))
    decode-wire (arr xs) (suc f) p rest h c e =
        let r =
          read_container 232 (count_items xs) p is_array (wire_items xs) rest refl refl refl h.0
            e in
        let q : ℕ = p + length (len_wire 232 (count_items xs)) in
        let (ys, run, same) = decode_items-wire xs f q rest h.1 (omega arith) r.hd.rest_eq in
        (
          arr ys,
          r.enters (suc f)
              ∙ array_done (suc f) p r.hd.bd (count_items xs) q (q + length (wire_items xs)) ys
                  r.hd.read h.0 run
              ∙ ap (λ x. ok (arr ys, at x)) r.end,
          ap arr same,
        )
    decode-wire (map fs) zero p rest h c e = absurd (omega (arith, cost_fields-pos fs))
    decode-wire (map fs) (suc f) p rest h c e =
        let r =
          read_container 240 (count_fields fs) p is_map (wire_fields fs) rest refl refl refl h.0
            e in
        let q : ℕ = p + length (len_wire 240 (count_fields fs)) in
        let (gs, run, same) = decode_fields-wire fs f q rest h.1 (omega arith) r.hd.rest_eq in
        (
          map gs,
          r.enters (suc f)
              ∙ map_done (suc f) p r.hd.bd (count_fields fs) q (q + length (wire_fields fs)) gs
                  r.hd.read h.0 run
              ∙ ap (λ x. ok (map gs, at x)) r.end,
          ap map same,
        )
    decode-wire (ext tag mem len) f p rest h c e =
        let r = read_container 248 len p is_ext (tag ∷ take len mem) rest refl refl refl h.2 e in
        let q : ℕ = p + length (len_wire 248 len) in
        let (run, same) = ext_done p r.hd.bd tag len q mem rest r.hd.read h.2 h.1 r.hd.rest_eq in
        (
          ext tag (drop (q + 1) b) len,
          r.enters f
              ∙ run
              ∙ ap (λ x. ok (ext tag (drop (q + 1) b) len, at x))
                  (omega (arith, r.end, length-take len mem h.1)),
          ap (λ m. ext tag m len) same,
        )

    decode_items-wire :
        (xs : Items) (f p : ℕ) (rest : List ℕ)
        → AreShort xs
        → cost_items xs ≤ suc f
        → drop p b ≡ wire_items xs ++ rest
        → DecodesItems (suc f) p xs
    decode_items-wire no_items f p rest h c e = (no_items, items_end f p, refl)
    decode_items-wire (item x xs) zero p rest h c e = absurd (omega (arith, cost_items-pos xs))
    decode_items-wire (item x xs) (suc f) p rest h c e =
        let e' : drop p b ≡ wire x ++ (wire_items xs ++ rest) =
          e ∙ append_assoc (wire x) (wire_items xs) rest in
        let (w, run, same) =
          decode-wire x f p (wire_items xs ++ rest) h.0 (omega (arith, cost_items-pos xs)) e' in
        let q : ℕ = p + length (wire x) in
        let (ys, runs, sames) =
          decode_items-wire xs f q rest h.1 (omega (arith, cost-pos x)) (behind b p (wire x) e') in
        (
          item w ys,
          item_done (suc f) p q (q + length (wire_items xs)) (count_items xs) w ys run runs
              ∙ ap (λ t. ok (item w ys, at t))
                  (omega (arith, length-append (wire x) (wire_items xs))),
          ap₂ item same sames,
        )

    decode_fields-wire :
        (fs : Fields) (f p : ℕ) (rest : List ℕ)
        → AreShortFields fs
        → cost_fields fs ≤ suc f
        → drop p b ≡ wire_fields fs ++ rest
        → DecodesFields (suc f) p fs
    decode_fields-wire no_fields f p rest h c e = (no_fields, fields_end f p, refl)
    decode_fields-wire (field k v fs) zero p rest h c e = absurd (omega (arith, cost_fields-pos fs))
    decode_fields-wire (field k v fs) (suc f) p rest h c e =
        let e1 : drop p b ≡ wire k ++ ((wire v ++ wire_fields fs) ++ rest) =
          e ∙ append_assoc (wire k) (wire v ++ wire_fields fs) rest in
        let q : ℕ = p + length (wire k) in
        let e2 : drop q b ≡ wire v ++ (wire_fields fs ++ rest) =
          behind b p (wire k) e1 ∙ append_assoc (wire v) (wire_fields fs) rest in
        let t : ℕ = q + length (wire v) in
        let (k', run1, same1) =
          decode-wire k f p ((wire v ++ wire_fields fs) ++ rest) h.0 (omega (arith, cost-pos v))
            e1 in
        let (v', run2, same2) =
          decode-wire v f q (wire_fields fs ++ rest) h.1 (omega (arith, cost-pos k)) e2 in
        let (gs, runs, sames) =
          decode_fields-wire fs f t rest h.2 (omega (arith, cost-pos k)) (behind b q (wire v) e2) in
        (
          field k' v' gs,
          field_done (suc f) p q t (t + length (wire_fields fs)) (count_fields fs) k' v' gs run1
                run2 runs
              ∙ ap (λ x. ok (field k' v' gs, at x))
                  (omega (
                    arith,
                    length-append (wire k) (wire v ++ wire_fields fs),
                    length-append (wire v) (wire_fields fs),
                  )),
          ap₃ field same1 same2 sames,
        )
