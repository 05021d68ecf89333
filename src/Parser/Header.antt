-- ===== src/Parser/Header.antt =====
-- The layout of a data shred, written down independently of the parser, and its round trip.
use shredstream_sdk_go.Prelude.{
  ℕ, ◌+◌, ◌^◌, ◌≤◌, ◌<◌, ◌≡◌, refl, List, [], ◌∷◌, ◌++◌, Bool, true, false, length, length-append,
  get_or, take, drop, slice, slice-field, concat, le_bytes, arith, get_or-shift,
}
use shredstream_sdk_go.Variant.{kind_data_merkle}
use shredstream_sdk_go.Variant.Laws.{variant_byte}
use shredstream_sdk_go.Parser.{
  DataShred, data_complete, last_flag, data_header_size, max_data_shred_size,
}

-- The flags byte: bit 6 for a complete batch, bits 6 and 7 for the last shred of a slot.
pub data Place : Type 0 where
  inside_batch end_of_batch end_of_slot : Place

abbrev pub flags_byte : Place → ℕ
flags_byte inside_batch = 0
flags_byte end_of_batch = 0x40
flags_byte end_of_slot = 0xc0

pub record Fields : Type 0 where
  pub signature : List ℕ
  pub proof_size : ℕ
  pub resigned : Bool
  pub slot : ℕ
  pub index : ℕ
  pub version : ℕ
  pub fec_set_index : ℕ
  pub parent_offset : ℕ
  pub place : Place
  pub payload : List ℕ
  pub tail : List ℕ

pub record IsFields (f : Fields) : Type 0 where
  pub signature_fits : length f.signature ≡ 64
  pub proof_fits : f.proof_size < 16
  pub slot_fits : f.slot < 2 ^ 64
  pub index_fits : f.index < 2 ^ 32
  pub version_fits : f.version < 2 ^ 16
  pub set_before : f.fec_set_index ≤ f.index
  pub parent_fits : f.parent_offset < 2 ^ 16
  pub payload_fits : data_header_size + length f.payload ≤ max_data_shred_size

module _ (f : Fields) where
  open f use {
    signature, proof_size, resigned, slot, index, version, fec_set_index, parent_offset, place,
    payload, tail,
  }

  abbrev fields : List (List ℕ)
  fields =
      signature
      ∷ (variant_byte kind_data_merkle proof_size resigned ∷ [])
      ∷ le_bytes 8 slot
      ∷ le_bytes 4 index
      ∷ le_bytes 2 version
      ∷ le_bytes 4 fec_set_index
      ∷ le_bytes 2 parent_offset
      ∷ (flags_byte place ∷ [])
      ∷ le_bytes 2 (data_header_size + length payload)
      ∷ payload
      ∷ tail
      ∷ []

  unfoldable pub shred_bytes : List ℕ
  shred_bytes = concat fields

  module _ (v : IsFields f) where
    pub slot_at : slice shred_bytes 0x41 0x49 ≡ le_bytes 8 slot
    unfolding shred_bytes le_bytes
    slot_at = rw v.signature_fits at (slice-field (take 2 fields) (le_bytes 8 slot) (drop 3 fields))

    pub index_at : slice shred_bytes 0x49 0x4d ≡ le_bytes 4 index
    unfolding shred_bytes le_bytes
    index_at =
        rw v.signature_fits at (slice-field (take 3 fields) (le_bytes 4 index) (drop 4 fields))

    pub version_at : slice shred_bytes 0x4d 0x4f ≡ le_bytes 2 version
    unfolding shred_bytes le_bytes
    version_at =
        rw v.signature_fits at (slice-field (take 4 fields) (le_bytes 2 version) (drop 5 fields))

    pub set_at : slice shred_bytes 0x4f 0x53 ≡ le_bytes 4 fec_set_index
    unfolding shred_bytes le_bytes
    set_at =
        rw v.signature_fits at
          (slice-field (take 5 fields) (le_bytes 4 fec_set_index) (drop 6 fields))

    pub parent_at : slice shred_bytes 0x53 0x55 ≡ le_bytes 2 parent_offset
    unfolding shred_bytes le_bytes
    parent_at =
        rw v.signature_fits at
          (slice-field (take 6 fields) (le_bytes 2 parent_offset) (drop 7 fields))

    pub size_at : slice shred_bytes 0x56 0x58 ≡ le_bytes 2 (data_header_size + length payload)
    unfolding shred_bytes le_bytes
    size_at = rw v.signature_fits at (
        slice-field (take 8 fields) (le_bytes 2 (data_header_size + length payload))
          (drop 9 fields))

    pub payload_at : slice shred_bytes 88 (88 + length payload) ≡ payload
    unfolding shred_bytes le_bytes
    payload_at = rw v.signature_fits at (slice-field (take 9 fields) payload (drop 10 fields))

    pub variant_at : get_or shred_bytes 0x40 0 ≡ variant_byte kind_data_merkle proof_size resigned
    unfolding shred_bytes le_bytes
    variant_at = rw v.signature_fits at (get_or-shift signature (concat (drop 1 fields)) 0 0)

    pub flags_at : get_or shred_bytes 0x55 0 ≡ flags_byte place
    unfolding shred_bytes le_bytes
    flags_at = rw v.signature_fits at (get_or-shift signature (concat (drop 1 fields)) 21 0)

    pub length-shred_bytes : length shred_bytes ≡ 88 + length payload + length tail
    unfolding shred_bytes le_bytes
    length-shred_bytes = omega (
      arith,
      length-append signature (concat (drop 1 fields)),
      length-append payload (tail ++ []),
      length-append tail [],
      v.signature_fits,
    )

abbrev pub is_last : Place → Bool
is_last end_of_slot = true
is_last _ = false

abbrev pub is_complete : Place → Bool
is_complete inside_batch = false
is_complete _ = true

-- What the parser should make of the fields.
abbrev pub shred_of : Fields → DataShred
shred_of f = record {
  slot = f.slot;
  index = f.index;
  version = f.version;
  fec_set_index = f.fec_set_index;
  parent_offset = f.parent_offset;
  payload = f.payload;
  batch_complete = is_complete f.place;
  last_in_slot = is_last f.place;
  variant = record { kind = kind_data_merkle; proof_size = f.proof_size; resigned = f.resigned };
  raw_len = data_header_size + length f.payload + length f.tail;
}

pub complete-flags : (p : Place) → data_complete (flags_byte p) ≡ is_complete p
complete-flags inside_batch = refl
complete-flags end_of_batch = refl
complete-flags end_of_slot = refl

pub last-flags : (p : Place) → last_flag (flags_byte p) ≡ is_last p
last-flags inside_batch = refl
last-flags end_of_batch = refl
last-flags end_of_slot = refl
