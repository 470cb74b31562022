-- ===== src/Zip.antt =====
-- The streams of bklib/bkzip.cpp over zlib. `deflate` and `inflate` of zlib are arguments: a call
-- takes the state of the stream, whether to finish, the input that is available and the room for
-- output, and gives a `Turn`. The members `next_in` and `avail_in` of a `z_stream` are the input
-- that is left. The loops stop by themselves; a number of rounds bounds them here.
pub mod Whole
pub mod RoundTrip
use bkjs_utils.Prelude.{
  ℕ, zero, suc, ◌-◌, Bytes, List, [], ◌∷◌, ◌++◌, Bool, true, false, ◌||◌, Option, none, some, ◌>>=◌,
  if◌then◌else◌, length, take, drop,
}

-- `Z_CHUNK`
unfoldable pub z_chunk : ℕ
z_chunk = 16384

-- The return codes of zlib.
pub data ReturnCode : Type 0 where
  z_ok z_stream_end z_need_dict z_stream_error z_data_error z_mem_error z_buf_error : ReturnCode

-- What a call of zlib gives: its code, what it wrote, what it left of its input, its new state.
pub record Turn (S : Type 0) : Type 0 where
  pub code : ReturnCode
  pub written : Bytes
  pub unread : Bytes
  pub state : S

-- `z_stream`, with whether `inflateEnd` has freed it.
pub record ZStream (S : Type 0) : Type 0 where
  pub inner : S
  pub avail_in : Bytes
  pub freed : Bool

-- What an operation returns: the code, the stream and `outbuf`.
pub record Progress (S : Type 0) : Type 0 where
  pub ret : ReturnCode
  pub strm : ZStream S
  pub outbuf : Bytes

-- The codes at which `bkDeflate` and `bkDeflateEnd` return.
unfoldable pub deflate_fails : ReturnCode → Option ReturnCode
deflate_fails ReturnCode.z_stream_error = some ReturnCode.z_stream_error
deflate_fails _ = none

-- The codes at which `bkInflate` returns, and what it returns.
unfoldable pub inflate_fails : ReturnCode → Option ReturnCode
inflate_fails ReturnCode.z_stream_error = some ReturnCode.z_stream_error
inflate_fails ReturnCode.z_need_dict = some ReturnCode.z_data_error
inflate_fails ReturnCode.z_data_error = some ReturnCode.z_data_error
inflate_fails ReturnCode.z_mem_error = some ReturnCode.z_mem_error
inflate_fails _ = none

-- Whether `bkInflate` calls `inflateEnd` before it returns.
unfoldable pub frees : ReturnCode → Bool
frees ReturnCode.z_stream_error = false
frees _ = true

abbrev pub is_stream_end : ReturnCode → Bool
is_stream_end ReturnCode.z_stream_end = true
is_stream_end _ = false

module _ {S : Type 0} (call : S → Bytes → ℕ → Turn S) (fails : ReturnCode → Option ReturnCode)
    (frees_at : ReturnCode → Bool) where
  -- The inner loop, `do { ... } while (strm->avail_out == 0)`. `true` says that the operation
  -- returns at once.
  pub drain : ℕ → ZStream S → Bytes → Option (Bool × Progress S)
  drain zero strm outbuf = none
  drain (suc rounds) strm outbuf =
      let turn = call strm.inner strm.avail_in z_chunk in
      let strm' : ZStream S = record {
        inner = turn.state;
        avail_in = turn.unread;
        freed = strm.freed;
      } in
      elim (fails turn.code) [
        | some ret ↦ some (
          true,
          record {
            ret = ret;
            strm = record strm' { freed = strm.freed || frees_at ret };
            outbuf = outbuf;
          },
        )
        | none ↦ elim (z_chunk - length turn.written) [
          | zero ↦ drain rounds strm' (outbuf ++ turn.written)
          | suc avail_out ↦
              some
                (false, record { ret = turn.code; strm = strm'; outbuf = outbuf ++ turn.written })
        ]
      ]

  -- The loop over the chunks of the input, with a bound on the chunks.
  pub chunks : ℕ → ℕ → ReturnCode → ZStream S → Bytes → Bytes → Option (Progress S)
  chunks rounds zero ret strm inbuf outbuf = elim inbuf [
    | [] ↦ some (record { ret = ret; strm = strm; outbuf = outbuf })
    | c ∷ more ↦ none
  ]
  chunks rounds (suc n) ret strm [] outbuf =
      some (record { ret = ret; strm = strm; outbuf = outbuf })
  chunks rounds (suc n) ret strm (c ∷ inbuf) outbuf = do
    (returns, p) ← drain rounds (record strm { avail_in = take z_chunk (c ∷ inbuf) }) outbuf
    elim returns [
      | true ↦ some p
      | false ↦ chunks rounds n p.ret p.strm (drop z_chunk (c ∷ inbuf)) p.outbuf
    ]

module _ {S : Type 0} (deflate : Bool → S → Bytes → ℕ → Turn S) where
  -- `bkDeflate`; a chunk has a byte or more.
  pub bk_deflate : ℕ → ZStream S → Bytes → Bytes → Option (Progress S)
  bk_deflate rounds strm inbuf outbuf =
      chunks (deflate false) deflate_fails (λ ret. false) rounds (length inbuf) ReturnCode.z_ok strm
        inbuf outbuf

  -- `bkDeflateEnd`, with `deflateEnd` of zlib.
  pub bk_deflate_end : (S → ReturnCode) → ℕ → ZStream S → Bytes → Option (Progress S)
  bk_deflate_end deflate_end rounds strm outbuf = do
    (returns, p) ← drain (deflate true) deflate_fails (λ ret. false) rounds strm outbuf
    if returns
        then some p
        else if is_stream_end p.ret
        then some (record {
          ret = deflate_end p.strm.inner;
          strm = record p.strm { freed = true };
          outbuf = p.outbuf;
        })
        else some p

module _ {S : Type 0} (inflate : S → Bytes → ℕ → Turn S) where
  -- `bkInflate`
  pub bk_inflate : ℕ → ZStream S → Bytes → Bytes → Option (Progress S)
  bk_inflate rounds strm inbuf outbuf =
      chunks inflate inflate_fails frees rounds (length inbuf) ReturnCode.z_ok strm inbuf outbuf
