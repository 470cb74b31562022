-- ===== src/Zip/RoundTrip.antt =====
-- The streams of bklib/bkzip.cpp from the first chunk to the last.
use bkjs_utils.Prelude.{
  ℕ, ◌<◌, ◌≤◌, ◌≡◌, refl, sym, ap, ◌∙◌, arith, Bytes, [], ◌++◌, append-nil, Bool, true, false,
  Option, none, some, length,
}
use bkjs_utils.Zip.{
  z_chunk, ReturnCode, Turn, ZStream, Progress, deflate_fails, inflate_fails, frees, bk_deflate,
  bk_deflate_end, bk_inflate,
}
use bkjs_utils.Zip.Whole.{IsTransducer, drain_whole, chunks_whole}

-- What zlib documents of a stream that compresses, with what it has read and written so far. An `Open`
-- stream takes input; it may be finished when no more input is to come, and takes none from then on.
-- Enough rounds empty a full buffer of output. A call that finishes and has room left ends the
-- stream, whose output is then a gzip of what it has read.
pub record IsDeflate {S : Type 0} (deflate : Bool → S → Bytes → ℕ → Turn S)
    (deflate_end : S → ReturnCode) (gunzip : Bytes → Option Bytes) (rounds : ℕ)
    (Open Finishing : S → Bytes → Type 0) (consumed produced : S → Bytes) (work : S → Bytes → ℕ)
    : Type 0 where
  pub feeding :
      IsTransducer
        (deflate false)
        deflate_fails
        Open
        (λ ret s. deflate_fails ret ≡ none)
        consumed
        produced
        work
  pub starts : (s : S) → Open s [] → Finishing s []
  pub finishing :
      IsTransducer
        (deflate true)
        deflate_fails
        Finishing
        (λ ret s.
          (ret ≡ ReturnCode.z_stream_end)
          × (gunzip (produced s) ≡ some (consumed s))
          × (deflate_end s ≡ ReturnCode.z_ok))
        consumed
        produced
        work
  pub enough :
      (s : S) (input later : Bytes)
      → Open s (input ++ later)
      → length input ≤ z_chunk
      → work s input < rounds
  pub enough_finishing : (s : S) → Finishing s [] → work s [] < rounds

z_ok_goes_on : deflate_fails ReturnCode.z_ok ≡ none
unfolding deflate_fails
z_ok_goes_on = refl

-- A stream that has read and written nothing, for an input to come.
pub record IsFresh {S : Type 0} (Valid : S → Bytes → Type 0) (consumed produced : S → Bytes)
    (strm : ZStream S) (inbuf : Bytes) : Type 0 where
  pub valid : Valid strm.inner inbuf
  pub no_input : strm.avail_in ≡ []
  pub nothing_read : consumed strm.inner ≡ []
  pub nothing_written : produced strm.inner ≡ []

module _ {S : Type 0} (deflate : Bool → S → Bytes → ℕ → Turn S) (deflate_end : S → ReturnCode)
    (gunzip : Bytes → Option Bytes) (rounds : ℕ) (Open Finishing : S → Bytes → Type 0)
    (consumed produced : S → Bytes) (work : S → Bytes → ℕ)
    (law : IsDeflate deflate deflate_end gunzip rounds Open Finishing consumed produced work) where
  -- Where zlib does what it documents, `bkDeflate` and then `bkDeflateEnd` on a new stream end: the
  -- first does not return `Z_STREAM_ERROR`, the second returns `Z_OK`, and `outbuf` is a gzip of the
  -- input.
  pub bk_deflate_end-bk_deflate :
      (strm : ZStream S) (inbuf : Bytes)
      → IsFresh Open consumed produced strm inbuf
      → (p : Progress S) × (q : Progress S) × (bk_deflate deflate rounds strm inbuf [] ≡ some p)
        × (deflate_fails p.ret ≡ none)
        × (bk_deflate_end deflate deflate_end rounds p.strm p.outbuf ≡ some q)
        × (q.ret ≡ ReturnCode.z_ok)
        × (gunzip q.outbuf ≡ some inbuf)
  unfolding bk_deflate bk_deflate_end
  bk_deflate_end-bk_deflate strm inbuf fresh =
      let none_written : [] ≡ produced strm.inner = sym fresh.nothing_written in
      let (p, fed, after, goes_on) =
        chunks_whole (deflate false) deflate_fails (λ ret. false) Open
          (λ ret s. deflate_fails ret ≡ none) consumed produced work law.feeding [] rounds
          law.enough (length inbuf) ReturnCode.z_ok strm inbuf [] (omega arith) fresh.valid
          fresh.no_input none_written z_ok_goes_on in
      let finishing = law.starts p.strm.inner after.is_valid in
      let valid : Finishing p.strm.inner (p.strm.avail_in ++ []) =
        rw after.nothing_left finishing in
      let (q, drained, end, (ended, zipped, closed)) =
        drain_whole (deflate true) deflate_fails (λ ret. false) Finishing _ consumed produced work
          law.finishing [] rounds p.strm p.outbuf [] valid
          (rw after.nothing_left (law.enough_finishing p.strm.inner finishing)) after.has_written in
      let all_read : consumed q.strm.inner ≡ inbuf =
        end.has_read
        ∙ ap (λ x. consumed p.strm.inner ++ x) after.nothing_left
        ∙ append-nil (consumed p.strm.inner)
        ∙ after.has_read
        ∙ ap (λ x. x ++ inbuf) fresh.nothing_read in
      (
        p,
        record {
          ret = deflate_end q.strm.inner;
          strm = record q.strm { freed = true };
          outbuf = q.outbuf;
        },
        fed,
        goes_on,
        rw (drained, ended),
        closed,
        ap gunzip end.has_written ∙ zipped ∙ ap some all_read,
      )

module _ {S : Type 0} (inflate : S → Bytes → ℕ → Turn S) (gunzip : Bytes → Option Bytes)
    (rounds : ℕ) (Valid : S → Bytes → Type 0) (consumed produced : S → Bytes)
    (work : S → Bytes → ℕ) where
  -- What zlib documents of a stream that expands: as above, and a call that has room left has
  -- written all that the gzip that it has read expands to.
  pub record IsInflate : Type 0 where
    pub expanding :
        IsTransducer inflate inflate_fails Valid
          (λ ret s. (plain : Bytes) → gunzip (consumed s) ≡ some plain → produced s ≡ plain)
          consumed
          produced
          work
    pub enough :
        (s : S) (input later : Bytes)
        → Valid s (input ++ later)
        → length input ≤ z_chunk
        → work s input < rounds
    pub no_text : gunzip [] ≡ none

  -- `bkInflate` on a new stream expands a gzip to the bytes that it is of.
  pub bk_inflate-gunzip :
      IsInflate
      → (strm : ZStream S) (inbuf plain : Bytes) → IsFresh Valid consumed produced strm inbuf
      → gunzip inbuf ≡ some plain
      → (p : Progress S) × (bk_inflate inflate rounds strm inbuf [] ≡ some p) × (p.outbuf ≡ plain)
  unfolding bk_inflate
  bk_inflate-gunzip law strm inbuf plain fresh zipped =
      let none_written : [] ≡ produced strm.inner = sym fresh.nothing_written in
      let nothing : (x : Bytes) → gunzip (consumed strm.inner) ≡ some x → produced strm.inner ≡ x =
        λ x e. absurd (cc (e, fresh.nothing_read, law.no_text)) in
      let (p, fed, after, last) =
        chunks_whole inflate inflate_fails frees Valid _ consumed produced work law.expanding []
          rounds law.enough (length inbuf) ReturnCode.z_ok strm inbuf [] (omega arith) fresh.valid
          fresh.no_input none_written nothing in
      let read : consumed p.strm.inner ≡ inbuf =
        after.has_read ∙ ap (λ x. x ++ inbuf) fresh.nothing_read in
      (p, fed, after.has_written ∙ last plain (ap gunzip read ∙ zipped))
