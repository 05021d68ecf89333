-- ===== src/Decoder/Reader.antt =====
-- The shape that the decode functions of decoder.go share. Each reads a byte slice `b` from an index
-- `pos` and returns `(consumed, value, complete, err)`. A reader is one such step: it gives the value
-- with the next index, or the answer that the bytes so far are too few, or an error.
pub mod Laws
pub mod Format
use shredstream_sdk_go.Prelude.{
  ℕ, zero, suc, ◌+◌, ◌*◌, List, [], ◌∷◌, Option, none, some, ltb, leb, if◌then◌else◌, length,
  get_or, drop, slice,
}

pub data DecodeError : Type 0 where
  invalid_entry_count : DecodeError
  invalid_tx_count : ℕ → DecodeError
  sig_count_too_large : DecodeError
  unknown_message_version : DecodeError
  truncated_batch : DecodeError
  truncated_entry : DecodeError

pub data Outcome {ℓ} (A : Type ℓ) : Type ℓ where
  complete : A → ℕ → Outcome A
  incomplete : Outcome A
  failed : DecodeError → Outcome A

abbrev pub Reader {ℓ} : Type ℓ → Type ℓ
Reader A = List ℕ → ℕ → Outcome A

abbrev pub then_read {ℓ κ} : {A : Type ℓ} {B : Type κ} → Outcome A → (A → ℕ → Outcome B) → Outcome B
then_read (complete a pos) f = f a pos
then_read incomplete f = incomplete
then_read (failed e) f = failed e

infixl 5 ◌>>=◌ ◌>>◌
abbrev pub ◌>>=◌ {ℓ κ} : {A : Type ℓ} {B : Type κ} → Reader A → (A → Reader B) → Reader B
◌>>=◌ m f b pos = then_read (m b pos) (λ a pos'. f a b pos')

abbrev pub ◌>>◌ {κ} : {B : Type κ} → Reader (Unit {0}) → Reader B → Reader B
m >> k = m >>= λ _. k

abbrev pub pure {ℓ} : {A : Type ℓ} → A → Reader A
pure a b pos = complete a pos

abbrev pub fail {ℓ} : {A : Type ℓ} → DecodeError → Reader A
fail e b pos = failed e

-- `if pos+n > len(b) { return incomplete }; x := b[pos:pos+n]; pos += n`.
unfoldable pub read_bytes : ℕ → Reader (List ℕ)
read_bytes n b pos =
    if ltb (length b) (pos + n) then incomplete else complete (slice b pos (pos + n)) (pos + n)

-- The same for one byte, `b[pos]`.
unfoldable pub read_byte : Reader ℕ
read_byte b pos =
    if ltb (length b) (pos + 1) then incomplete else complete (get_or b pos 0) (pos + 1)

-- `for i := range out { copy(out[i][:], b[pos:pos+width]); pos += width }`.
unfoldable pub copy_array : ℕ → ℕ → List ℕ → ℕ → List (List ℕ)
copy_array zero width b pos = []
copy_array (suc count) width b pos =
    slice b pos (pos + width) ∷ copy_array count width b (pos + width)

-- The check that `count` elements of `width` bytes are there, and their copy.
unfoldable pub read_array : ℕ → ℕ → Reader (List (List ℕ))
read_array count width b pos =
    if ltb (length b) (pos + count * width)
    then incomplete
    else complete (copy_array count width b pos) (pos + count * width)

-- `for i := 0; i < n; i++ { … append(out, x) }`.
unfoldable pub times {ℓ} : {A : Type ℓ} → ℕ → Reader A → Reader (List A)
times zero r b pos = complete [] pos
times (suc n) r b pos =
    then_read (r b pos) λ x pos'. then_read (times n r b pos') λ xs pos''. complete (x ∷ xs) pos''

-- `consumed, x, complete, err := f(b[pos:])`, and then `pos += consumed`.
unfoldable pub nested {ℓ} : {A : Type ℓ} → Reader A → Reader A
nested r b pos = then_read (r (drop pos b) 0) λ a consumed. complete a (pos + consumed)
