-- ===== src/Sse/Streams.antt =====
-- The loop of `SseValidator` in crates/gateway/src/streaming.rs over the frames of a chunk, and a stream chunk
-- by chunk.
use nvidia_build_lb.Prelude.{
  ℕ, zero, suc, ◌+◌, ◌-◌, ◌≤◌, ◌<◌, ◌^◌, min, Bytes, Bool, true, false, List, [], ◌∷◌, ◌++◌, Option,
  none, some, ◌≡◌, refl, ap, sym, ◌∙◌, inl, inr, arith, length, length-append, length-take-drop,
  drop, take, Bool-cases, Option-cases, if◌then◌else◌, ltb, starts_with, subst, ◌*◌,
}
use nvidia_build_lb.Json.{Value}
use nvidia_build_lb.Media.{position_of}
use nvidia_build_lb.Vault.State.{Text}
use nvidia_build_lb.Sse.{
  SseValidator, fresh, validate_frame, first_end, frame_end, drain_frames, feed, feed_all, finish,
}
use nvidia_build_lb.Sse.Frames.{
  some-injective, Keeps, Keeps-trans, IsBacked, Follows, unchanged, Framed, validate_frame-Framed,
}

-- Where a frame ends, something of the buffer goes.
position_of-lt :
    (pattern bytes : Bytes) (i : ℕ) → position_of pattern bytes ≡ some i → i < length bytes
unfolding position_of
position_of-lt pattern [] i e = cc
position_of-lt pattern (b ∷ bytes) i e = elim (Bool-cases (starts_with pattern (b ∷ bytes))) [
  | inl here ↦ ground arith
  | inr later ↦ elim (Option-cases (position_of pattern bytes)) [
    | inl missing ↦ ground arith
    | inr (j, found) ↦ ground (arith, position_of-lt pattern bytes j found)
  ]
]

frame_end-lt :
    (buffer : Bytes) (i n : ℕ) → frame_end buffer ≡ some (i, n) → (i < length buffer) × (2 ≤ n)
frame_end-lt buffer i n e =
    go (position_of (10 ∷ 10 ∷ []) buffer) (position_of (13 ∷ 10 ∷ 13 ∷ 10 ∷ []) buffer) refl refl e
  where
    go :
        (lf crlf : Option ℕ)
        → position_of (10 ∷ 10 ∷ []) buffer ≡ lf
        → position_of (13 ∷ 10 ∷ 13 ∷ 10 ∷ []) buffer ≡ crlf
        → first_end lf crlf ≡ some (i, n)
        → (i < length buffer) × (2 ≤ n)
    go none none p q e' = cc
    go (some a) none p q e' = ground (arith, position_of-lt _ buffer a p)
    go none (some b) p q e' = ground (arith, position_of-lt _ buffer b q)
    go (some a) (some b) p q e' =
        ground (arith, position_of-lt _ buffer a p, position_of-lt _ buffer b q)

Follows-trans :
    (a b c : SseValidator) (passed : Bool)
    → Follows a b true
    → Follows b c passed
    → Follows a c passed
Follows-trans a b c passed f g = record {
  message_id = Keeps-trans a.message_id b.message_id c.message_id f.message_id g.message_id;
  model = Keeps-trans a.model b.model c.model f.model g.model;
  closed = elim f.closed [
    | inl open_still ↦ inl open_still
    | inr (b_done, same_emitted) ↦ elim g.closed [
      | inl b_open ↦ absurd (ground arith)
      | inr (c_done, same_again) ↦ inr (c_done, same_again ∙ same_emitted)
    ]
  ];
  backed = λ e h. g.backed e (f.backed refl h);
}

-- The loop ends with fuel for every byte of the buffer, and its state follows.
abbrev Drained : SseValidator → Option (SseValidator × Bool) → Type 0
Drained v o = (r : SseValidator × Bool) × (o ≡ some r) × Follows v r.0 r.1

length-drop_le :
    (n : ℕ) (bytes : Bytes) → 1 ≤ n → 1 ≤ length bytes → length (drop n bytes) < length bytes
length-drop_le zero bytes h k = absurd (omega arith)
length-drop_le (suc n) [] h k = absurd (omega arith)
length-drop_le (suc n) (b ∷ bytes) h k = omega (arith, length-take-drop n bytes)

drain_frames-Drained :
    (fuel : ℕ) (parse : Text → Option Value) (v : SseValidator)
    → length v.buffer < fuel
    → Drained v (drain_frames fuel parse v)
unfolding drain_frames
drain_frames-Drained zero parse v enough = elim enough [ ]
drain_frames-Drained (suc fuel) parse v enough =
    by_end (λ u. drain_frames-Drained fuel parse u) (frame_end v.buffer) refl
  where
    rest : ℕ → SseValidator
    rest n = record v { buffer = drop n v.buffer }

    by_result :
        (n : ℕ) (r : SseValidator × Bool)
        → ((u : SseValidator) → length u.buffer < fuel → Drained u (drain_frames fuel parse u))
        → length (drop n v.buffer) < length v.buffer
        → Framed (rest n) r
        → Drained v (elim r.1 [ true ↦ drain_frames fuel parse r.0 | false ↦ some (r.0, false) ])
    by_result n (u, false) again less (buffer, f) = (
      (u, false),
      refl,
      record { message_id = f.message_id; model = f.model; closed = f.closed; backed = f.backed },
    )
    by_result n (u, true) again less (buffer, f) =
        let (r, is, g) = again u (omega (arith, ap length buffer, less, enough)) in
        (
          r,
          is,
          Follows-trans v u r.0 r.1
              (record {
                message_id = f.message_id;
                model = f.model;
                closed = f.closed;
                backed = f.backed;
              })
              g,
        )

    by_end :
        ((u : SseValidator) → length u.buffer < fuel → Drained u (drain_frames fuel parse u))
        → (o : Option (ℕ × ℕ)) → frame_end v.buffer ≡ o
        → Drained v (elim o [
          | none ↦ some (v, true)
          | some (index, delimiter_len) ↦
              let next : SseValidator = record v {
                buffer = drop (index + delimiter_len) v.buffer;
              } in
              let r = validate_frame parse next (take index v.buffer) in
              elim r.1 [ true ↦ drain_frames fuel parse r.0 | false ↦ some (r.0, false) ]
        ])
    by_end again none is = ((v, true), refl, unchanged v true)
    by_end again (some (i, n)) is =
        let (inside, long) = frame_end-lt v.buffer i n is in
        by_result (i + n) (validate_frame parse (rest (i + n)) (take i v.buffer)) again
          (length-drop_le (i + n) v.buffer (omega arith) (omega arith))
          (validate_frame-Framed parse (rest (i + n)) (take i v.buffer))

feed-Drained :
    (parse : Text → Option Value) (v : SseValidator) (bytes : Bytes)
    → Drained v (feed parse v bytes)
unfolding feed
feed-Drained parse v bytes =
    elim (Bool-cases
      (ltb (256 * 1024 * 1024) (min (length v.buffer + length bytes) (2 ^ 64 - 1)))) [
        | inl large ↦ rw large ((v, false), refl, unchanged v false)
        | inr fits ↦ rw fits (
            grown (
              drain_frames-Drained (suc (length v.buffer + length bytes)) parse
                (record v { buffer = v.buffer ++ bytes })
                (omega (arith, length-append v.buffer bytes))))
      ]
  where
    grown :
        {o : Option (SseValidator × Bool)}
        → Drained (record v { buffer = v.buffer ++ bytes }) o
        → Drained v o
    grown (r, is, f) = (
      r,
      is,
      record { message_id = f.message_id; model = f.model; closed = f.closed; backed = f.backed },
    )

-- The validator always returns: the loop over the frames of a chunk ends within one round for each
-- byte that is buffered.
pub feed-returns :
    (parse : Text → Option Value) (v : SseValidator) (bytes : Bytes)
    → (r : SseValidator × Bool) × (feed parse v bytes ≡ some r)
feed-returns parse v bytes = let (r, is, _) = feed-Drained parse v bytes in (r, is)

Follows-of_feed :
    (parse : Text → Option Value) (v : SseValidator) (bytes : Bytes) (r : SseValidator × Bool)
    → feed parse v bytes ≡ some r
    → Follows v r.0 r.1
Follows-of_feed parse v bytes r e =
    let (r', is, f) = feed-Drained parse v bytes in
    let same_result : r' ≡ r = some-injective r' r (sym is ∙ e) in
    subst (λ (x : SseValidator × Bool). Follows v x.0 x.1) same_result f

-- The names of a stream are fixed by its first chunk: once an identifier is set, feeding more bytes keeps
-- it, and so for the model, whether the bytes are accepted or not.
pub feed-Keeps :
    (parse : Text → Option Value) (v : SseValidator) (bytes : Bytes) (r : SseValidator × Bool)
    → feed parse v bytes ≡ some r
    → Keeps v.message_id r.0.message_id × Keeps v.model r.0.model
feed-Keeps parse v bytes r e = let f = Follows-of_feed parse v bytes r e in (f.message_id, f.model)

-- Nothing comes after the end: once the stream is done, feeding more bytes emits nothing and leaves it
-- done.
pub feed-done :
    (parse : Text → Option Value) (v : SseValidator) (bytes : Bytes) (r : SseValidator × Bool)
    → v.done ≡ true
    → feed parse v bytes ≡ some r
    → (r.0.done ≡ true) × (r.0.emitted ≡ v.emitted)
feed-done parse v bytes r is_done e = elim (Follows-of_feed parse v bytes r e).closed [
  | inl open_still ↦ absurd (ground arith)
  | inr h ↦ h
]

feed_all-IsBacked :
    (parse : Text → Option Value) (v v' : SseValidator) (chunks : List Bytes)
    → IsBacked v
    → feed_all parse v chunks ≡ some v'
    → IsBacked v'
unfolding feed_all
feed_all-IsBacked parse v v' [] b e = subst IsBacked (some-injective v v' e) b
feed_all-IsBacked parse v v' (bytes ∷ chunks) b e =
    let (r, is, f) = feed-Drained parse v bytes in
    by_result (λ u b'. feed_all-IsBacked parse u v' chunks b') r f (rw (is, feed_all) at e)
  where
    by_result :
        ((u : SseValidator) → IsBacked u → feed_all parse u chunks ≡ some v' → IsBacked v')
        → (r : SseValidator × Bool) → Follows v r.0 r.1
        → (if r.1 then feed_all parse r.0 chunks else none) ≡ some v'
        → IsBacked v'
    by_result again (u, false) f h = cc
    by_result again (u, true) f h = again u (f.backed refl b) h

-- A stream that is accepted from its first chunk to its end has emitted at least one text.
pub feed_all-emitted :
    (parse : Text → Option Value) (v : SseValidator) (chunks : List Bytes)
    → feed_all parse fresh chunks ≡ some v
    → finish v ≡ true
    → 1 ≤ length v.emitted
unfolding finish
feed_all-emitted parse v chunks e accepted =
    let backed = feed_all-IsBacked parse fresh v chunks (omega arith) e in ground (arith, backed)
