-- ===== src/Ntrip/Chunked/Pieces.antt =====
-- src/sp_rtk_base_relay/core/ntrip/chunked.py: the pieces in which a body comes do not matter.
use sp_rtk_base_relay.Prelude.{
  ℕ, zero, suc, ◌≤◌, ◌<◌, ◌≡◌, refl, ◌∙◌, sym, ap, ap₂, ◌⊎◌, inl, inr, String, Bool, true, false,
  ◌&&◌, Option, none, some, [], ◌∷◌, ◌++◌, length, length-take, length-drop, take, take-append,
  drop-append, arith, Bool-cases, Option-cases, ltb, ◌==◌,
}
use sp_rtk_base_relay.Prelude.Int.{ℤ, pos, negsuc}
use sp_rtk_base_relay.Rtcm.{Bytes}
use sp_rtk_base_relay.Ntrip.Chunked.{
  ChunkedDecoder, Round, breaks, raises, goes_on, take_data, take_crlf, take_size, start_chunk,
  hex_int, size_field, partition_line, max_size_line,
}

abbrev pub grown : ChunkedDecoder → Bytes → ChunkedDecoder
grown d more = record d { buffer = d.buffer ++ more }

module _ (b : ℕ) (buffer : Bytes) where
  partition_here : (b == 10) ≡ true → partition_line (b ∷ buffer) ≡ some ([], buffer)
  unfolding partition_line
  partition_here h = simp h refl

  partition_none :
      (b == 10) ≡ false → partition_line buffer ≡ none → partition_line (b ∷ buffer) ≡ none
  unfolding partition_line
  partition_none h e = simp (h, e) refl

  partition_later :
      (line rest : Bytes)
      → (b == 10) ≡ false
      → partition_line buffer ≡ some (line, rest)
      → partition_line (b ∷ buffer) ≡ some (b ∷ line, rest)
  unfolding partition_line
  partition_later line rest h e = simp (h, e) refl

pub partition-append :
    (buffer more line rest : Bytes)
    → partition_line buffer ≡ some (line, rest)
    → (partition_line (buffer ++ more) ≡ some (line, rest ++ more)) × (length rest < length buffer)
unfolding partition_line
partition-append [] more line rest h = absurd (cc h)
partition-append (b ∷ buffer) more line rest h = elim (Bool-cases (b == 10)) [
  | inl newline ↦
      let e : ◌≡◌ {A = Option (Bytes × Bytes)} (some ([], buffer)) (some (line, rest)) =
        sym (partition_here b buffer newline) ∙ h in
      let same_line : ◌≡◌ {A = Bytes} [] line = cc e in
      let same_rest : buffer ≡ rest = cc e in
      (
        partition_here b (buffer ++ more) newline
            ∙ ap₂ (λ l r. some (l, r ++ more)) same_line same_rest,
        omega (arith, ap length same_rest),
      )
  | inr other ↦ elim (Option-cases (partition_line buffer)) [
    | inl nothing ↦ absurd (cc (h, partition_none b buffer other nothing))
    | inr ((line', rest'), found) ↦
        let (found', shorter) = partition-append buffer more line' rest' found in
        let e : ◌≡◌ {A = Option (Bytes × Bytes)} (some (b ∷ line', rest')) (some (line, rest)) =
          sym (partition_later b buffer line' rest' other found) ∙ h in
        let same_line : b ∷ line' ≡ line = cc e in
        let same_rest : rest' ≡ rest = cc e in
        (
          partition_later b (buffer ++ more) line' (rest' ++ more) other found'
              ∙ ap₂ (λ l r. some (l, r ++ more)) same_line same_rest,
          omega (arith, shorter, ap length same_rest),
        )
  ]
]

-- What a round does: it breaks with the decoder as it was, it ends the body, it raises, or it goes
-- on, and but for the first of these it does the same when more bytes wait behind the buffer.
pub data Seen (d : ChunkedDecoder) (more : Bytes) (r r' : Round) : Type 0 where
  waits : r ≡ breaks d → Seen d more r r'
  ended :
      r ≡ breaks (record d { buffer = []; finished = true })
      → r' ≡ breaks (record d { buffer = []; finished = true })
      → Seen d more r r'
  refused : (e : String) → r ≡ raises e → Seen d more r r'
  went_on :
      (out : Bytes) (d' : ChunkedDecoder)
      → r ≡ goes_on out d'
      → r' ≡ goes_on out (grown d' more)
      → length d'.buffer < length d.buffer
      → d'.finished ≡ d.finished
      → Seen d more r r'

module _ (remaining : ℕ) (expect_crlf finished : Bool) (more : Bytes) where
  pub crlf-Seen :
      (buffer : Bytes)
      → let d : ChunkedDecoder = record {
        buffer = buffer;
        remaining = remaining;
        expect_crlf = expect_crlf;
        finished = finished;
      } in
        Seen d more (take_crlf d buffer) (take_crlf (grown d more) (buffer ++ more))
  unfolding take_crlf
  crlf-Seen [] = waits refl
  crlf-Seen (b ∷ []) = elim (Bool-cases (b == 10)) [
    | inl newline ↦ rw newline (went_on [] _ refl refl (omega arith) refl)
    | inr other ↦ rw other (waits refl)
  ]
  crlf-Seen (b ∷ c ∷ bytes) = elim (Bool-cases (b == 10)) [
    | inl newline ↦ rw newline (went_on [] _ refl refl (omega arith) refl)
    | inr other ↦ elim (Bool-cases ((b == 13) && (c == 10))) [
      | inl both ↦ rw (other, both) (went_on [] _ refl refl (omega arith) refl)
      | inr neither ↦ rw (other, neither) (refused _ refl)
    ]
  ]

module _ (d : ChunkedDecoder) (more : Bytes) where
  start-Seen :
      (rest : Bytes) (size : Option ℤ)
      → length rest < length d.buffer
      → Seen d more (start_chunk d rest size) (start_chunk (grown d more) (rest ++ more) size)
  unfolding start_chunk
  start-Seen rest none shorter = refused _ refl
  start-Seen rest (some (negsuc n)) shorter = refused _ refl
  start-Seen rest (some (pos zero)) shorter = ended refl refl
  start-Seen rest (some (pos (suc n))) shorter = went_on [] _ refl refl shorter refl

  size_line :
      (line rest : Bytes)
      → partition_line d.buffer ≡ some (line, rest)
      → take_size d ≡ start_chunk d rest (hex_int (size_field line))
  unfolding take_size
  size_line line rest e = rw (e, take_size) refl

  size_none :
      partition_line d.buffer ≡ none
      → (take_size d ≡ breaks d) ⊎ (take_size d ≡ raises "chunk size line too long")
  unfolding take_size
  size_none e = elim (Bool-cases (ltb max_size_line (length d.buffer))) [
    | inl long ↦ inr (rw (e, take_size, long) refl)
    | inr short ↦ inl (rw (e, take_size, short) refl)
  ]

pub size-Seen :
    (d : ChunkedDecoder) (more : Bytes) → Seen d more (take_size d) (take_size (grown d more))
size-Seen d more = elim (Option-cases (partition_line d.buffer)) [
  | inl nothing ↦ elim (size_none d more nothing) [ inl e ↦ waits e | inr e ↦ refused _ e ]
  | inr ((line, rest), e) ↦
      let (e', shorter) = partition-append d.buffer more line rest e in
      rw (size_line d more line rest e, size_line (grown d more) more line (rest ++ more) e')
        (start-Seen d more rest (hex_int (size_field line)) shorter)
]

-- The data of a chunk that the buffer does not exceed.
pub data-Seen :
    (d : ChunkedDecoder) (more : Bytes)
    → 0 < d.remaining
    → d.remaining ≤ length d.buffer
    → Seen d more (take_data d) (take_data (grown d more))
unfolding take_data
data-Seen d more positive fits =
    let taken : take d.remaining (d.buffer ++ more) ≡ take d.remaining d.buffer =
      take-append d.remaining d.buffer more fits in
    let size : length (take d.remaining d.buffer) ≡ d.remaining =
      omega (arith, length-take d.remaining d.buffer, fits) in
    rw (taken, size, drop-append d.remaining d.buffer more fits)
      (went_on _ _ refl refl (omega (arith, length-drop d.remaining d.buffer, positive, fits)) refl)
