-- ===== src/FlowControl/Pieces.antt =====
-- code/ioc_connection_send.c: a frame that the stream takes in pieces.
use iocom.Base.{
  ℕ, ◌+◌, ◌-◌, ◌%◌, ◌^◌, ◌<◌, ◌≤◌, ◌≡◌, ◌∙◌, refl, sym, ap, Bool, true, false, List, [], ◌∷◌, ◌++◌,
  leb, ◌==◌, if◌then◌else◌, length, length-drop, take, drop, drop-drop, drop-nil, take_all,
  take-append-drop, append_assoc, append-nil, arith,
}
use iocom.FlowControl.{
  Flow, SendStatus, Wrote, written_status, pending, advance_out, write_to_stream,
}

-- A stream that takes `k` bytes, or all if they are fewer, and keeps them.
unfoldable pub keep_some : SendStatus → ℕ → List ℕ → List ℕ → Wrote (List ℕ)
keep_some status k taken bytes =
    let n = if leb k (length bytes) then k else length bytes in
    record { status = status; n_written = n; stream = taken ++ take n bytes }

pub record Piece : Type 0 where
  pub status : SendStatus
  pub size : ℕ

pub record Writer : Type 0 where
  pub flow : Flow
  pub taken : List ℕ

unfoldable pub write_piece : Piece → Writer → Writer
write_piece p w =
    let r = write_to_stream (keep_some p.status p.size) w.flow w.taken in
    record { flow = r.1; taken = r.2 }

unfoldable pub write_pieces : List Piece → Writer → Writer
write_pieces [] w = w
write_pieces (p ∷ ps) w = write_pieces ps (write_piece p w)

-- The stream takes something each time.
unfoldable pub Progresses : List Piece → Type 0
Progresses [] = Unit
Progresses (p ∷ ps) = (0 < p.size) × Progresses ps

unfoldable pub unwritten : Flow → List ℕ
unwritten f = drop f.pos f.out

-- A frame is under way, or the buffer is free.
pub data Holds (f : Flow) : Type 0 where
  busy : f.pos < length f.out → Holds f
  free : f.out ≡ [] → Holds f

-- One write: the bytes go over to the stream, in order, and fewer remain.
record IsPiece (p : Piece) (w v : Writer) : Type 0 where
  pub same : v.taken ++ unwritten v.flow ≡ w.taken ++ unwritten w.flow
  pub holds : Holds v.flow
  pub fewer : length (unwritten v.flow) ≤ length (unwritten w.flow) - 1

advance_if :
    (b : Bool) (f : Flow) (taken : List ℕ) (n : ℕ) (p : Piece)
    → leb (length f.out) (f.pos + n) ≡ b
    → 0 < n
    → n ≤ length (drop f.pos f.out)
    → (let sent = record f { bytes_sent = (f.bytes_sent + n) % 2 ^ 32 } in
        let g = if b then record sent { out = []; pos = 0 } else record sent { pos = f.pos + n } in
        IsPiece p
          (record { flow = f; taken = taken })
          (record { flow = g; taken = taken ++ take n (drop f.pos f.out) }))
unfolding unwritten
advance_if true f taken n p e some few = record {
  same = append-nil _ ∙ ap (λ z. taken ++ z) (take_all n (drop f.pos f.out) all);
  holds = free refl;
  fewer = omega arith;
}
  where
    all : length (drop f.pos f.out) ≤ n
    all = let h = length-drop f.pos f.out in ground arith
advance_if false f taken n p e some few = record {
  same =
      append_assoc taken (take n rest) _
      ∙ ap (λ z. taken ++ (take n rest ++ z)) (sym (drop-drop n f.pos f.out))
      ∙ ap (λ z. taken ++ z) (take-append-drop n rest);
  holds = busy (ground arith);
  fewer = let h = length-drop f.pos f.out in let k = length-drop (f.pos + n) f.out in omega arith;
}
  where
    rest : List ℕ
    rest = drop f.pos f.out

few-kept :
    (status : SendStatus) (k : ℕ) (taken bytes : List ℕ)
    → (keep_some status k taken bytes).n_written ≤ length bytes
unfolding keep_some
few-kept status k taken bytes = ground arith

some-kept :
    (status : SendStatus) (k : ℕ) (taken bytes : List ℕ)
    → 0 < k
    → 0 < length bytes
    → 0 < (keep_some status k taken bytes).n_written
unfolding keep_some
some-kept status k taken bytes hk hb = ground arith

write_piece-IsPiece :
    (p : Piece) (w : Writer) → 0 < p.size → Holds w.flow → IsPiece p w (write_piece p w)
unfolding write_piece write_to_stream keep_some advance_out unwritten
write_piece-IsPiece p w some h = go (length w.flow.out - w.flow.pos == 0) refl
  where
    rest : List ℕ
    rest = drop w.flow.pos w.flow.out

    wrote : Wrote (List ℕ)
    wrote = keep_some p.status p.size w.taken rest

    nothing : length w.flow.out - w.flow.pos == 0 ≡ true → length rest ≤ length rest - 1
    nothing e = let k = length-drop w.flow.pos w.flow.out in ground arith

    left : length w.flow.out - w.flow.pos == 0 ≡ false → 0 < length rest
    left e = let k = length-drop w.flow.pos w.flow.out in ground arith

    go :
        (b : Bool)
        → (length w.flow.out - w.flow.pos == 0) ≡ b
        → (let r : SendStatus × Flow × List ℕ = if b then (pending, w.flow, w.taken) else (
          written_status wrote.status (length w.flow.out - w.flow.pos) wrote.n_written,
          advance_out wrote.n_written w.flow,
          wrote.stream,
        ) in
            IsPiece p w (record { flow = r.1; taken = r.2 }))
    go true e = record { same = refl; holds = h; fewer = nothing e }
    go false e =
        advance_if (leb (length w.flow.out) (w.flow.pos + wrote.n_written)) w.flow w.taken
          wrote.n_written p refl (some-kept p.status p.size w.taken rest some (left e))
          (few-kept p.status p.size w.taken rest)

unwritten-nil : (f : Flow) → Holds f → length (unwritten f) ≤ 0 → f.out ≡ []
unfolding unwritten
unwritten-nil f (busy h) few = absurd (let k = length-drop f.pos f.out in omega arith)
unwritten-nil f (free h) few = h

unwritten-free : (f : Flow) → f.out ≡ [] → unwritten f ≡ []
unfolding unwritten
unwritten-free f e = ap (drop f.pos) e ∙ drop-nil f.pos

-- A frame gets to the stream whole and in order. If `ioc_write_to_stream` is called at least as
-- often as bytes of the frame buffer are left, and the stream takes a byte at least each time,
-- whatever it returns, then the frame buffer is free and the stream has taken the bytes that were
-- left, each once.
pub write_pieces-unwritten :
    (ps : List Piece) (w : Writer)
    → Holds w.flow
    → Progresses ps
    → length (unwritten w.flow) ≤ length ps
    → ((write_pieces ps w).flow.out ≡ [])
      × ((write_pieces ps w).taken ≡ w.taken ++ unwritten w.flow)
unfolding write_pieces Progresses
write_pieces-unwritten [] w h some enough =
    let e = unwritten-nil w.flow h enough in
    (e, sym (ap (λ z. w.taken ++ z) (unwritten-free w.flow e) ∙ append-nil w.taken))
write_pieces-unwritten (p ∷ ps) w h some enough =
    let one = write_piece-IsPiece p w some.0 h in
    let fewer = one.fewer in
    let r = write_pieces-unwritten ps (write_piece p w) one.holds some.1 (omega arith) in
    (r.0, r.1 ∙ one.same)
