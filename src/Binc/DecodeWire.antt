-- ===== src/Binc/DecodeWire.antt =====
-- The "binc" decoder on the bytes of a value whose numbers and lengths have a width that is kept.
use cc_common.Base.{
  inl, ℕ, zero, suc, ◌+◌, ◌-◌, ◌*◌, ◌/◌, ◌%◌, ◌^◌, ◌≤◌, ◌<◌, ◌≡◌, refl, sym, ap, ◌∙◌, arith, u64,
  Bool, true, false, ◌==◌, List, [], ◌∷◌, ◌++◌, length, drop, take, ok, le→leb, append_assoc,
  length-append, length-take, length-drop,
}
use native.Mathlib.Decide.{dec_le}
use native.Mathlib.Nat.{add-zero}
use mathlib.Core.Path.{ap₂}
use cc_common.Value.{
  Value, unset, nil, bool, pos_int, neg_int, float32, float64, str, bytes, arr, map, ext, Items,
  no_items, item, Fields, no_fields, field, count_items, count_fields,
}
use cc_common.Value.Cursor.{Cursor}
use cc_common.Simple.Decode.Reads.{at, behind}
use cc_common.Simple.Decode.Parts.{take_front}
use cc_common.Simple.Decode.Seen.{trim, trim_items, trim_fields}
use cc_common.Simple.Decode.Cost.{
  cost, cost_items, cost_fields, GrantsShort, ap₃, cost-pos, cost_items-pos, cost_fields-pos,
}
use cc_common.Binc.Decode.{
  BincKind, as_special, as_small_int, as_pos_int, as_neg_int, as_string, as_bytes, as_array, as_map,
  binc_kind, special, decode_len, read_int, read_blob, read_array, read_map, dispatch, decode_r,
  decode_items, decode_fields,
}
use cc_common.Binc.Wire.{
  IsNumber, IsLength, wide_wire, neg_wire, pos_wire, short_wire, kept_wire, kept_wire_items,
  kept_wire_fields, IsKept, AreKept, AreKeptFields,
}
use cc_common.Binc.Reads.{entered, NumberRead, wide_read, pos_read, ShortRead, short_read}

module _ (calloc : ℕ → ℕ → Bool) (grants : GrantsShort calloc) (b : List ℕ)
    (small : length b < 2 ^ 63) where
  -- The decoder at `p` gives `v` back, and stands behind its bytes.
  abbrev pub Decodes : ℕ → ℕ → Value → Type 0
  Decodes fuel p v =
      (w : Value) × (decode_r calloc b fuel true (at p) ≡ ok (w, at (p + length (kept_wire v))))
      × (trim w ≡ trim v)

  abbrev pub DecodesItems : ℕ → ℕ → Items → Type 0
  DecodesItems fuel p xs =
      (ys : Items) × (decode_items calloc b fuel true (count_items xs) (at p)
        ≡ ok (ys, at (p + length (kept_wire_items xs))))
      × (trim_items ys ≡ trim_items xs)

  abbrev pub DecodesFields : ℕ → ℕ → Fields → Type 0
  DecodesFields fuel p fs =
      (gs : Fields) × (decode_fields calloc b fuel true (count_fields fs) (at p)
        ≡ ok (gs, at (p + length (kept_wire_fields fs))))
      × (trim_fields gs ≡ trim_fields fs)

  int_done :
      (make : ℕ → Value) (kind n p f : ℕ) (k : BincKind) (wire rest : List ℕ)
      → binc_kind kind ≡ k
      → ((vs : ℕ) (s : Cursor)
          → dispatch calloc b (decode_items calloc b f) (decode_fields calloc b f) true vs s k
            ≡ read_int calloc b make true vs s)
      → NumberRead calloc b small (kind * 16) n p wire rest
      → decode_r calloc b (suc f) true (at p) ≡ ok (make n, at (p + length wire))
  unfolding read_int
  int_done make kind n p f k wire rest hk case r =
      let high : (kind * 16 + r.low) / 16 ≡ kind = omega (arith, r.low-le) in
      let low : (kind * 16 + r.low) % 16 ≡ r.low = omega (arith, r.low-le) in
      entered calloc b small f p k r.at_desc (ap binc_kind high ∙ hk)
      ∙ case ((kind * 16 + r.low) % 16) (at (p + 1))
      ∙ rw (low, r.read)

  pos_Decodes :
      (n f p : ℕ) (rest : List ℕ)
      → IsNumber n
      → drop p b ≡ pos_wire n ++ rest
      → decode_r calloc b (suc f) true (at p) ≡ ok (pos_int n, at (p + length (pos_wire n)))
  unfolding pos_wire binc_kind dispatch special
  pos_Decodes zero f p rest h e = entered calloc b small f p as_special e refl
  pos_Decodes (suc n) f p rest h e =
      let more : (suc n == 0) ≡ false = ground arith in
      elim (dec_le (suc n) 16) [
        | yes low ↦
            let form : pos_wire (suc n) ≡ (143 + suc n) ∷ [] = rw (more, le→leb (suc n) 16 low) in
            let e' : drop p b ≡ (143 + suc n) ∷ rest = e ∙ ap (λ xs. xs ++ rest) form in
            let high : (143 + suc n) / 16 ≡ 9 = omega arith in
            let back : (143 + suc n) % 16 + 1 ≡ suc n = omega arith in
            entered calloc b small f p as_small_int e' (rw high) ∙ rw (form, back)
        | no high ↦
            int_done pos_int 1 (suc n) p f as_pos_int (pos_wire (suc n)) rest refl (λ vs s. refl)
              (pos_read calloc b small (suc n) p rest (omega arith) h e)
      ]

  neg_Decodes :
      (n f p : ℕ) (rest : List ℕ)
      → (0 < n) × IsLength n
      → drop p b ≡ neg_wire n ++ rest
      → decode_r calloc b (suc f) true (at p) ≡ ok (neg_int n, at (p + length (neg_wire n)))
  unfolding neg_wire binc_kind dispatch
  neg_Decodes n f p rest h e =
      let more : (n == 0) ≡ false = ground (arith, h.0) in
      let form : neg_wire n ≡ wide_wire 32 n = rw more in
      int_done neg_int 2 n p f as_neg_int (wide_wire 32 n) rest refl (λ vs s. refl)
        (wide_read calloc b small 32 n p rest h.1 (e ∙ ap (λ xs. xs ++ rest) form))
      ∙ rw form

  -- A blob or a container: its descriptor and its length, then its content.
  record Opened (bd len p f : ℕ) (k : BincKind) (entries rest : List ℕ) : Type 0 where
    pub hd : ShortRead calloc b small bd len p (entries ++ rest)
    pub enters :
        decode_r calloc b (suc f) true (at p)
        ≡ dispatch calloc b
            (decode_items calloc b f)
            (decode_fields calloc b f)
            true
            hd.low
            (at (p + 1))
            k
    pub end :
        p + length (short_wire bd len) + length entries ≡ p + length (short_wire bd len ++ entries)

  open_short :
      (kind len p f : ℕ) (k : BincKind) (entries rest : List ℕ)
      → binc_kind kind ≡ k
      → IsLength len
      → drop p b ≡ (short_wire (kind * 16) len ++ entries) ++ rest
      → Opened (kind * 16) len p f k entries rest
  open_short kind len p f k entries rest hk h e =
      let hd =
        short_read calloc b small (kind * 16) len p (entries ++ rest) h
          (e ∙ append_assoc (short_wire (kind * 16) len) entries rest) in
      let high : (kind * 16 + hd.low) / 16 ≡ kind = omega (arith, hd.low-lt) in
      let low : (kind * 16 + hd.low) % 16 ≡ hd.low = omega (arith, hd.low-lt) in
      record {
        hd = hd;
        enters =
            entered calloc b small f p k hd.at_desc (ap binc_kind high ∙ hk)
            ∙ ap
                (λ x.
                  dispatch calloc b (decode_items calloc b f) (decode_fields calloc b f) true x
                    (at (p + 1)) k)
                low;
        end = omega (arith, length-append (short_wire (kind * 16) len) entries);
      }

  blob_done :
      (make : List ℕ → ℕ → Value) (kind len p : ℕ) (k : BincKind) (f : ℕ) (mem rest : List ℕ)
      → len ≤ length mem
      → ((vs : ℕ) (s : Cursor)
          → dispatch calloc b (decode_items calloc b f) (decode_fields calloc b f) true vs s k
            ≡ read_blob calloc b make true vs s)
      → (o : Opened (kind * 16) len p f k (take len mem) rest)
      → let q = p + length (short_wire (kind * 16) len) in
        (decode_r calloc b (suc f) true (at p)
          ≡ ok (make (drop q b) len, at (p + length (short_wire (kind * 16) len ++ take len mem))))
        × (take len (drop q b) ≡ take len mem)
  unfolding read_blob
  blob_done make kind len p k f mem rest enough case o =
      let q : ℕ = p + length (short_wire (kind * 16) len) in
      let size : length (take len mem) ≡ len = length-take len mem enough in
      let left : length (drop q b) ≡ length b - q = length-drop q b in
      let inside : length (drop q b) ≡ len + length rest =
        ap (length {A = ℕ}) o.hd.rest_eq ∙ omega (arith, length-append (take len mem) rest, size) in
      let moved : u64 (q + len) ≡ p + length (short_wire (kind * 16) len ++ take len mem) =
        omega (arith, o.end, o.hd.fits, size, left, inside) in
      (
        o.enters ∙ case o.hd.low (at (p + 1)) ∙ rw (o.hd.read, moved),
        rw o.hd.rest_eq (take_front len mem rest enough),
      )

  array_done :
      (f p low len q r : ℕ) (ys : Items)
      → decode_len calloc b low (at (p + 1)) ≡ ok (len, at q)
      → len < 2 ^ 8
      → decode_items calloc b f true len (at q) ≡ ok (ys, at r)
      → read_array calloc b (decode_items calloc b f) true low (at (p + 1)) ≡ ok (arr ys, at r)
  unfolding read_array
  array_done f p low len q r ys head lt run = rw (head, (grants len lt).0, run)

  map_done :
      (f p low len q r : ℕ) (gs : Fields)
      → decode_len calloc b low (at (p + 1)) ≡ ok (len, at q)
      → len < 2 ^ 8
      → decode_fields calloc b f true len (at q) ≡ ok (gs, at r)
      → read_map calloc b (decode_fields calloc b f) true low (at (p + 1)) ≡ ok (map gs, at r)
  unfolding read_map
  map_done f p low len q r gs head lt run = rw (head, (grants len lt).1, run)

  item_done :
      (f p q r n : ℕ) (x : Value) (ys : Items)
      → decode_r calloc b f true (at p) ≡ ok (x, at q)
      → decode_items calloc b f true n (at q) ≡ ok (ys, at r)
      → decode_items calloc b (suc f) true (suc n) (at p) ≡ ok (item x ys, at r)
  unfolding decode_r
  item_done f p q r n x ys one rest =
      let more : (suc n == 0) ≡ false = ground arith in
      let left : suc n - 1 ≡ n = omega arith in rw (more, one, left, rest)

  field_done :
      (f p q t r n : ℕ) (k v : Value) (gs : Fields)
      → decode_r calloc b f true (at p) ≡ ok (k, at q)
      → decode_r calloc b f true (at q) ≡ ok (v, at t)
      → decode_fields calloc b f true n (at t) ≡ ok (gs, at r)
      → decode_fields calloc b (suc f) true (suc n) (at p) ≡ ok (field k v gs, at r)
  unfolding decode_r
  field_done f p q t r n k v gs key val rest =
      let more : (suc n == 0) ≡ false = ground arith in
      let left : suc n - 1 ≡ n = omega arith in rw (more, key, val, left, rest)

  items_end : (f p : ℕ) → decode_items calloc b (suc f) true 0 (at p) ≡ ok (no_items, at (p + 0))
  unfolding decode_r
  items_end f p = rw (add-zero p)

  fields_end : (f p : ℕ) → decode_fields calloc b (suc f) true 0 (at p) ≡ ok (no_fields, at (p + 0))
  unfolding decode_r
  fields_end f p = rw (add-zero p)

  mutual
    unfolding kept_wire cost trim binc_kind dispatch special

    pub decode-wire :
        (v : Value) (f p : ℕ) (rest : List ℕ)
        → IsKept v
        → cost v ≤ suc f
        → drop p b ≡ kept_wire v ++ rest
        → Decodes (suc f) p v
    decode-wire unset f p rest h c e = absurd h
    decode-wire (nil x) f p rest h c e =
        (nil true, entered calloc b small f p as_special e refl, ap nil (sym h))
    decode-wire (bool true) f p rest h c e =
        (bool true, entered calloc b small f p as_special e refl, refl)
    decode-wire (bool false) f p rest h c e =
        (bool false, entered calloc b small f p as_special e refl, refl)
    decode-wire (pos_int n) f p rest h c e = (pos_int n, pos_Decodes n f p rest h e, refl)
    decode-wire (neg_int n) f p rest h c e = (neg_int n, neg_Decodes n f p rest h e, refl)
    decode-wire (float32 w) f p rest h c e = absurd h
    decode-wire (float64 w) f p rest h c e =
        (float64 0, entered calloc b small f p as_special e refl, ap float64 (sym h))
    decode-wire (str mem len) f p rest h c e =
        let o = open_short 4 len p f as_string (take len mem) rest refl h.1 e in
        let (run, same) = blob_done str 4 len p as_string f mem rest h.0 (λ vs s. refl) o in
        (str (drop (p + length (short_wire 64 len)) b) len, run, ap (λ m. str m len) same)
    decode-wire (bytes mem len) f p rest h c e =
        let o = open_short 5 len p f as_bytes (take len mem) rest refl h.1 e in
        let (run, same) = blob_done bytes 5 len p as_bytes f mem rest h.0 (λ vs s. refl) o in
        (bytes (drop (p + length (short_wire 80 len)) b) len, run, ap (λ m. bytes m len) same)
    decode-wire (arr xs) zero p rest h c e = absurd (omega (arith, cost_items-pos xs))
    decode-wire (arr xs) (suc f) p rest h c e =
        let o =
          open_short 6 (count_items xs) p (suc f) as_array (kept_wire_items xs) rest refl (inl h.0)
            e in
        let q : ℕ = p + length (short_wire 96 (count_items xs)) in
        let (ys, run, same) = decode_items-wire xs f q rest h.1 (omega arith) o.hd.rest_eq in
        (
          arr ys,
          o.enters
              ∙ array_done (suc f) p o.hd.low (count_items xs) q (q + length (kept_wire_items xs))
                  ys o.hd.read h.0 run
              ∙ ap (λ x. ok (arr ys, at x)) o.end,
          ap arr same,
        )
    decode-wire (map fs) zero p rest h c e = absurd (omega (arith, cost_fields-pos fs))
    decode-wire (map fs) (suc f) p rest h c e =
        let o =
          open_short 7 (count_fields fs) p (suc f) as_map (kept_wire_fields fs) rest refl (inl h.0)
            e in
        let q : ℕ = p + length (short_wire 112 (count_fields fs)) in
        let (gs, run, same) = decode_fields-wire fs f q rest h.1 (omega arith) o.hd.rest_eq in
        (
          map gs,
          o.enters
              ∙ map_done (suc f) p o.hd.low (count_fields fs) q (q + length (kept_wire_fields fs))
                  gs o.hd.read h.0 run
              ∙ ap (λ x. ok (map gs, at x)) o.end,
          ap map same,
        )
    decode-wire (ext tag mem len) f p rest h c e = absurd h

    decode_items-wire :
        (xs : Items) (f p : ℕ) (rest : List ℕ)
        → AreKept xs
        → cost_items xs ≤ suc f
        → drop p b ≡ kept_wire_items xs ++ rest
        → DecodesItems (suc f) p xs
    decode_items-wire no_items f p rest h c e = (no_items, items_end f p, refl)
    decode_items-wire (item x xs) zero p rest h c e = absurd (omega (arith, cost_items-pos xs))
    decode_items-wire (item x xs) (suc f) p rest h c e =
        let e' : drop p b ≡ kept_wire x ++ (kept_wire_items xs ++ rest) =
          e ∙ append_assoc (kept_wire x) (kept_wire_items xs) rest in
        let (w, run, same) =
          decode-wire x f p (kept_wire_items xs ++ rest) h.0 (omega (arith, cost_items-pos xs))
            e' in
        let q : ℕ = p + length (kept_wire x) in
        let (ys, runs, sames) =
          decode_items-wire xs f q rest h.1 (omega (arith, cost-pos x))
            (behind b p (kept_wire x) e') in
        (
          item w ys,
          item_done (suc f) p q (q + length (kept_wire_items xs)) (count_items xs) w ys run runs
              ∙ ap (λ t. ok (item w ys, at t))
                  (omega (arith, length-append (kept_wire x) (kept_wire_items xs))),
          ap₂ item same sames,
        )

    decode_fields-wire :
        (fs : Fields) (f p : ℕ) (rest : List ℕ)
        → AreKeptFields fs
        → cost_fields fs ≤ suc f
        → drop p b ≡ kept_wire_fields fs ++ rest
        → DecodesFields (suc f) p fs
    decode_fields-wire no_fields f p rest h c e = (no_fields, fields_end f p, refl)
    decode_fields-wire (field k v fs) zero p rest h c e = absurd (omega (arith, cost_fields-pos fs))
    decode_fields-wire (field k v fs) (suc f) p rest h c e =
        let tail : List ℕ = kept_wire_fields fs in
        let e1 : drop p b ≡ kept_wire k ++ ((kept_wire v ++ tail) ++ rest) =
          e ∙ append_assoc (kept_wire k) (kept_wire v ++ tail) rest in
        let q : ℕ = p + length (kept_wire k) in
        let e2 : drop q b ≡ kept_wire v ++ (tail ++ rest) =
          behind b p (kept_wire k) e1 ∙ append_assoc (kept_wire v) tail rest in
        let t : ℕ = q + length (kept_wire v) in
        let (k', run1, same1) =
          decode-wire k f p ((kept_wire v ++ tail) ++ rest) h.0 (omega (arith, cost-pos v)) e1 in
        let (v', run2, same2) =
          decode-wire v f q (tail ++ rest) h.1 (omega (arith, cost-pos k)) e2 in
        let (gs, runs, sames) =
          decode_fields-wire fs f t rest h.2 (omega (arith, cost-pos k))
            (behind b q (kept_wire v) e2) in
        (
          field k' v' gs,
          field_done (suc f) p q t (t + length tail) (count_fields fs) k' v' gs run1 run2 runs
              ∙ ap (λ x. ok (field k' v' gs, at x))
                  (omega (
                    arith,
                    length-append (kept_wire k) (kept_wire v ++ tail),
                    length-append (kept_wire v) tail,
                  )),
          ap₃ field same1 same2 sames,
        )
