-- ===== src/Zip/Whole.antt =====
-- The loops of bklib/bkzip.cpp over a zlib that does what it documents.
use bkjs_utils.Prelude.{
  ℕ, zero, suc, ◌-◌, ◌<◌, ◌≤◌, ◌≡◌, refl, sym, ap, ◌∙◌, subst, arith, Bytes, [], ◌∷◌, ◌++◌,
  append-nil, append_assoc, Bool, false, Option, none, some, length, length-drop, length-take,
  take-drop, ◌⊎◌, inl, inr, take, drop,
}
use bkjs_utils.Zip.{z_chunk, ReturnCode, Turn, ZStream, Progress, drain, chunks}

-- What zlib documents of a call that compresses or expands, by the bytes that a stream has read and
-- written so far, and of all the input that is still to come: it reads from the front of its input and writes no more than it has room for;
-- where it leaves room, it has read all its input; where it leaves none, it may be called again, but
-- not for ever. `Last` holds of the code and the state of a call that leaves room.
pub record IsTransducer {S : Type 0} (call : S → Bytes → ℕ → Turn S)
    (fails : ReturnCode → Option ReturnCode) (Valid : S → Bytes → Type 0)
    (Last : ReturnCode → S → Type 0) (consumed produced : S → Bytes) (work : S → Bytes → ℕ)
    : Type 0 where
  pub valid :
      (s : S) (input later : Bytes) (room : ℕ)
      → Valid s (input ++ later)
      → Valid (call s input room).state ((call s input room).unread ++ later)
  pub succeeds :
      (s : S) (input later : Bytes) (room : ℕ)
      → Valid s (input ++ later)
      → 0 < room
      → fails (call s input room).code ≡ none
  pub reads :
      (s : S) (input later : Bytes) (room : ℕ)
      → Valid s (input ++ later)
      → consumed s ++ input ≡ consumed (call s input room).state ++ (call s input room).unread
  pub writes :
      (s : S) (input later : Bytes) (room : ℕ)
      → Valid s (input ++ later)
      → produced (call s input room).state ≡ produced s ++ (call s input room).written
  pub empties :
      (s : S) (input later : Bytes) (room : ℕ)
      → Valid s (input ++ later)
      → length (call s input room).written < room
      → (call s input room).unread ≡ []
  pub falls :
      (s : S) (input later : Bytes) (room : ℕ)
      → Valid s (input ++ later)
      → 0 < room
      → room ≤ length (call s input room).written
      → work (call s input room).state (call s input room).unread < work s input
  pub last :
      (s : S) (input later : Bytes) (room : ℕ)
      → Valid s (input ++ later)
      → length (call s input room).written < room
      → Last (call s input room).code (call s input room).state

z_chunk_positive : 0 < z_chunk
unfolding z_chunk
z_chunk_positive = omega arith

zero-cases : (n : ℕ) → (n ≡ 0) ⊎ ((m : ℕ) × (n ≡ suc m))
zero-cases zero = inl refl
zero-cases (suc n) = inr (n, refl)

module _ {S : Type 0} (call : S → Bytes → ℕ → Turn S) (fails : ReturnCode → Option ReturnCode)
    (frees_at : ReturnCode → Bool) (Valid : S → Bytes → Type 0) (Last : ReturnCode → S → Type 0)
    (consumed produced : S → Bytes) (work : S → Bytes → ℕ)
    (law : IsTransducer call fails Valid Last consumed produced work) (base : Bytes) where
  -- A stream that has read and written so much.
  pub record IsAfter (later input : Bytes) (p : Progress S) : Type 0 where
    pub is_valid : Valid p.strm.inner later
    pub nothing_left : p.strm.avail_in ≡ []
    pub has_read : consumed p.strm.inner ≡ input
    pub has_written : p.outbuf ≡ base ++ produced p.strm.inner

  -- The stream behind a call.
  abbrev turned : ZStream S → ZStream S
  turned strm = record strm {
    inner = (call strm.inner strm.avail_in z_chunk).state;
    avail_in = (call strm.inner strm.avail_in z_chunk).unread;
  }

  abbrev wrote : ZStream S → Bytes
  wrote strm = (call strm.inner strm.avail_in z_chunk).written

  drain_full :
      (n : ℕ) (strm : ZStream S) (outbuf later : Bytes)
      → Valid strm.inner (strm.avail_in ++ later)
      → z_chunk - length (wrote strm) ≡ 0
      → drain call fails frees_at (suc n) strm outbuf
        ≡ drain call fails frees_at n (turned strm) (outbuf ++ wrote strm)
  unfolding drain
  drain_full n strm outbuf later v e =
      rw (drain, law.succeeds strm.inner strm.avail_in later z_chunk v z_chunk_positive, e)

  drain_room :
      (n : ℕ) (strm : ZStream S) (outbuf later : Bytes) (m : ℕ)
      → Valid strm.inner (strm.avail_in ++ later)
      → z_chunk - length (wrote strm) ≡ suc m
      → drain call fails frees_at (suc n) strm outbuf
        ≡ some (
          false,
          record {
            ret = (call strm.inner strm.avail_in z_chunk).code;
            strm = turned strm;
            outbuf = outbuf ++ wrote strm;
          },
        )
  unfolding drain
  drain_room n strm outbuf later m v e =
      rw (drain, law.succeeds strm.inner strm.avail_in later z_chunk v z_chunk_positive, e)

  turned_written :
      (strm : ZStream S) (outbuf later : Bytes)
      → Valid strm.inner (strm.avail_in ++ later)
      → outbuf ≡ base ++ produced strm.inner
      → outbuf ++ wrote strm ≡ base ++ produced (turned strm).inner
  turned_written strm outbuf later v e =
      rw (e, law.writes strm.inner strm.avail_in later z_chunk v)
        (append_assoc base (produced strm.inner) (wrote strm))

  -- The inner loop, from a state whose output so far is in `outbuf`.
  pub drain_whole :
      (n : ℕ) (strm : ZStream S) (outbuf later : Bytes)
      → Valid strm.inner (strm.avail_in ++ later)
      → work strm.inner strm.avail_in < n
      → outbuf ≡ base ++ produced strm.inner
      → (p : Progress S) × (drain call fails frees_at n strm outbuf ≡ some (false, p))
        × IsAfter later (consumed strm.inner ++ strm.avail_in) p
        × Last p.ret p.strm.inner
  drain_whole zero strm outbuf later v h e = absurd (omega arith)
  drain_whole (suc n) strm outbuf later v h e =
      let v' = law.valid strm.inner strm.avail_in later z_chunk v in
      let e' = turned_written strm outbuf later v e in
      let read = law.reads strm.inner strm.avail_in later z_chunk v in
      elim (zero-cases (z_chunk - length (wrote strm))) [
        | inl full ↦
            let falls =
              law.falls strm.inner strm.avail_in later z_chunk v z_chunk_positive
                (omega (arith, full)) in
            let (p, ran, after, last) =
              drain_whole n (turned strm) (outbuf ++ wrote strm) later v' (omega (arith, falls, h))
                e' in
            (
              p,
              drain_full n strm outbuf later v full ∙ ran,
              subst (λ x. IsAfter later x p) (sym read) after,
              last,
            )
        | inr (m, room) ↦
            let less : length (wrote strm) < z_chunk = omega (arith, room) in
            let empty = law.empties strm.inner strm.avail_in later z_chunk v less in
            (
              record {
                ret = (call strm.inner strm.avail_in z_chunk).code;
                strm = turned strm;
                outbuf = outbuf ++ wrote strm;
              },
              drain_room n strm outbuf later m v room,
              record {
                is_valid = subst (λ x. Valid (turned strm).inner (x ++ later)) empty v';
                nothing_left = empty;
                has_read = sym (
                    read
                    ∙ ap (λ x. consumed (turned strm).inner ++ x) empty
                    ∙ append-nil (consumed (turned strm).inner));
                has_written = e';
              },
              law.last strm.inner strm.avail_in later z_chunk v less,
            )
      ]

  unchanged :
      (ret : ReturnCode) (strm : ZStream S) (outbuf : Bytes)
      → Valid strm.inner []
      → strm.avail_in ≡ []
      → outbuf ≡ base ++ produced strm.inner
      → IsAfter [] (consumed strm.inner ++ []) (record { ret = ret; strm = strm; outbuf = outbuf })
  unchanged ret strm outbuf v none_left e = record {
    is_valid = v;
    nothing_left = none_left;
    has_read = sym (append-nil (consumed strm.inner));
    has_written = e;
  }

  module _ (rounds : ℕ)
      (enough : (s : S) (input later : Bytes)
        → Valid s (input ++ later)
        → length input ≤ z_chunk
        → work s input < rounds) where
    -- The loop over the chunks, from a state whose output so far is in `outbuf`.
    pub chunks_whole :
        (n : ℕ) (ret : ReturnCode) (strm : ZStream S) (inbuf outbuf : Bytes)
        → length inbuf ≤ n
        → Valid strm.inner inbuf
        → strm.avail_in ≡ []
        → outbuf ≡ base ++ produced strm.inner
        → Last ret strm.inner
        → (p : Progress S) × (chunks call fails frees_at rounds n ret strm inbuf outbuf ≡ some p)
          × IsAfter [] (consumed strm.inner ++ inbuf) p
          × Last p.ret p.strm.inner
    unfolding chunks
    chunks_whole zero ret strm [] outbuf h v none_left e l = (
      record { ret = ret; strm = strm; outbuf = outbuf },
      refl,
      unchanged ret strm outbuf v none_left e,
      l,
    )
    chunks_whole zero ret strm (c ∷ inbuf) outbuf h v none_left e l = absurd (omega arith)
    chunks_whole (suc n) ret strm [] outbuf h v none_left e l = (
      record { ret = ret; strm = strm; outbuf = outbuf },
      refl,
      unchanged ret strm outbuf v none_left e,
      l,
    )
    chunks_whole (suc n) ret strm (c ∷ inbuf) outbuf h v none_left e l =
        let xs : Bytes = c ∷ inbuf in
        let fed : ZStream S = record strm { avail_in = take z_chunk xs } in
        let fits : length (take z_chunk xs) ≤ z_chunk = omega (arith, length-take z_chunk xs) in
        let v' : Valid strm.inner (take z_chunk xs ++ drop z_chunk xs) =
          rw (take-drop z_chunk xs) v in
        let (p, ran, after, l') =
          drain_whole rounds fed outbuf (drop z_chunk xs) v'
            (enough strm.inner (take z_chunk xs) (drop z_chunk xs) v' fits) e in
        let fewer : length (drop z_chunk xs) ≤ n =
          omega (arith, length-drop z_chunk xs, z_chunk_positive, h) in
        let (q, more, end, l'') =
          chunks_whole n p.ret p.strm (drop z_chunk xs) p.outbuf fewer after.is_valid
            after.nothing_left after.has_written l' in
        let read : consumed p.strm.inner ++ drop z_chunk xs ≡ consumed strm.inner ++ xs =
          ap (λ x. x ++ drop z_chunk xs) after.has_read
          ∙ append_assoc (consumed strm.inner) (take z_chunk xs) (drop z_chunk xs)
          ∙ ap (λ x. consumed strm.inner ++ x) (take-drop z_chunk xs) in
        (q, rw ran more, subst (λ x. IsAfter [] x q) read end, l'')
