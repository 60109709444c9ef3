-- ===== src/SyncFile/Socket/Laws.antt =====
-- RecvSocket and SendSocket of tools/sync_file/epoll_socket/epoll_socket.cpp: every call, on any
-- connection.
use algo.Prelude.{
  ℕ, zero, suc, ◌+◌, ◌-◌, ◌≤◌, ◌<◌, min, ◌≡◌, refl, ap, ◌⊎◌, inl, inr, List, [], ◌∷◌, ◌++◌,
  append-nil, append_assoc, arith, length, take, drop, take-append-drop, length-take, length-drop,
  ◌==◌, ltb, Bool-cases, length-append, ◌∙◌, if◌then◌else◌, dec_lt, sym, ◌≢◌,
}
use algo.Prelude.Int.{pos, negsuc}
use algo.SyncFile.Effects.{Turn, ready, again, broken, Run, done, waiting, undefined}
use algo.SyncFile.Socket.{Received, received_more, recv_loop, Sent, sent_more, send_loop}

-- How many bytes the calls have room for, together.
abbrev pub rooms : List Turn → ℕ
rooms [] = 0
rooms (ready k ∷ ts) = k + rooms ts
rooms (again ∷ ts) = rooms ts
rooms (broken ∷ ts) = rooms ts

-- A call fails, or moves nothing.
abbrev pub Fails : List Turn → Type 0
Fails [] = ⊥
Fails (ready k ∷ ts) = (k ≡ 0) ⊎ Fails ts
Fails (again ∷ ts) = Fails ts
Fails (broken ∷ ts) = Unit

-- What holds of a call with the turns `ts`. If it came back, no byte is lost, made up or
-- reordered; the result is 0 exactly with all `n` bytes (if `n` is not 0), else -1, and then a call
-- failed or nothing more came. If it waits, the turns or the bytes that came are too few.
abbrev pub Keeps : List Turn → List ℕ → ℕ → Run Received → Type 0
Keeps ts incoming n (done r) =
    (r.got ++ r.incoming ≡ incoming)
    × (((r.code ≡ pos 0) × (length r.got ≡ n))
        ⊎ ((r.code ≡ negsuc 0)
            × (length r.got ≤ n)
            × ((length r.got < n) ⊎ (n ≡ 0))
            × (Fails ts ⊎ (r.incoming ≡ []))))
Keeps ts incoming n waiting = ((rooms ts < n) ⊎ (length incoming < n)) ⊎ (n ≡ 0)
Keeps ts incoming n undefined = ⊥

empty : (xs : List ℕ) → length xs ≡ 0 → xs ≡ []
empty [] e = refl
empty (x ∷ xs) e = absurd (omega arith)

received_more-Keeps :
    (k : ℕ) (ts : List Turn) (got rest incoming : List ℕ) (n : ℕ) (r : Run Received)
    → got ++ rest ≡ incoming
    → length got < n
    → (k ≤ length got) ⊎ (length incoming < n)
    → Keeps ts rest (n - length got) r
    → Keeps (ready k ∷ ts) incoming n (received_more got r)
received_more-Keeps k ts got rest incoming n (done r) e h room keeps = (
  append_assoc got r.got r.incoming ∙ ap (◌++◌ got) keeps.0 ∙ e,
  elim keeps.1 [
    | inl (done_all, all) ↦ inl (done_all, omega (arith, length-append got r.got))
    | inr (minus, le, lt, why) ↦ inr (
      minus,
      omega (arith, length-append got r.got),
      elim lt [
        | inl l ↦ inl (omega (arith, length-append got r.got))
        | inr nothing ↦ absurd (omega arith)
      ],
      elim why [ inl f ↦ inl (inr f) | inr none ↦ inr none ],
    )
  ],
)
received_more-Keeps k ts got rest incoming n waiting e h room keeps =
    let len : length got + length rest ≡ length incoming =
      sym (length-append got rest) ∙ ap length e in
    elim keeps [
      | inl (inl few) ↦ elim room [ inl le ↦ inl (inl (omega arith)) | inr short ↦ inl (inr short) ]
      | inl (inr few) ↦ inl (inr (omega arith))
      | inr nothing ↦ absurd (omega arith)
    ]
received_more-Keeps k ts got rest incoming n undefined e h room keeps = keeps

-- One round whose call returns `bytes`, for any rest of the loop.
recv_round-Keeps :
    (k : ℕ) (bytes rest incoming : List ℕ) (n : ℕ) (ts : List Turn) (more : Run Received)
    → bytes ++ rest ≡ incoming
    → length bytes ≡ min (min k n) (length incoming)
    → Keeps ts rest (n - length bytes) more
    → Keeps (ready k ∷ ts) incoming n (
        if length bytes == n
        then done (record { code = pos 0; got = bytes; turns = ts; incoming = rest })
        else if ltb 0 (length bytes)
        then received_more bytes more
        else done (record { code = negsuc 0; got = bytes; turns = ts; incoming = rest }))
recv_round-Keeps k bytes rest incoming n ts more e len keeps =
    elim (Bool-cases (length bytes == n)) [
      | inl all ↦ rw all (e, inl (refl, ground arith))
      | inr some_left ↦
          let ne : length bytes ≢ n = ground arith in
          let total : length bytes + length rest ≡ length incoming =
            sym (length-append bytes rest) ∙ ap length e in
          rw some_left (elim (Bool-cases (ltb 0 (length bytes))) [
            | inl progress ↦ rw progress (
                received_more-Keeps k ts bytes rest incoming n more e (omega arith)
                  (elim (dec_lt (length incoming) n) [
                    | yes short ↦ inr short
                    | no enough ↦ inl (omega arith)
                  ])
                  keeps)
            | inr ended ↦
                let nothing : length bytes ≡ 0 = ground arith in
                rw ended (
                  e,
                  inr (
                    refl,
                    omega arith,
                    inl (omega arith),
                    elim (dec_lt 0 k) [
                      | yes room ↦ inr (empty rest (omega arith))
                      | no none ↦ inl (inl (omega arith))
                    ],
                  ),
                )
          ])
    ]

-- Every call of RecvSocket, on any connection: if it comes back then no byte is lost, made up or
-- reordered, and its result is 0 with exactly `n` bytes, or -1 with at most `n`, with fewer than `n`
-- unless `n` is 0, and only where a call of recv failed or moved nothing, or nothing more came. It
-- waits, for an `n` above 0, only if its calls have room for fewer than `n` bytes or fewer came.
pub recv_loop-Keeps :
    (ts : List Turn) (incoming : List ℕ) (n : ℕ) → Keeps ts incoming n (recv_loop ts incoming n)
unfolding recv_loop
recv_loop-Keeps [] incoming zero = inr refl
recv_loop-Keeps [] incoming (suc n) = inl (inl (omega arith))
recv_loop-Keeps (ready k ∷ ts) incoming n =
    let j = min k n in
    recv_round-Keeps k (take j incoming) (drop j incoming) incoming n ts _
      (take-append-drop j incoming) (length-take j incoming)
      (recv_loop-Keeps ts (drop j incoming) (n - length (take j incoming)))
recv_loop-Keeps (again ∷ ts) incoming n = recv_loop-Keeps ts incoming n
recv_loop-Keeps (broken ∷ ts) incoming zero = (refl, inr (refl, omega arith, inr refl, inl tt))
recv_loop-Keeps (broken ∷ ts) incoming (suc n) =
    (refl, inr (refl, omega arith, inl (omega arith), inl tt))

-- What holds of a call of SendSocket with the turns `ts`. If it came back, what the socket took is
-- a beginning of `buf`, and the result is 0 with all of it, or -1 with less (if there was any), and
-- then a call failed. If it waits, the turns have too little room.
abbrev pub Forwards : List Turn → List ℕ → Run Sent → Type 0
Forwards ts buf (done r) =
    (rest : List ℕ) × (r.taken ++ rest ≡ buf)
    × (((r.code ≡ pos 0) × (rest ≡ []))
        ⊎ ((r.code ≡ negsuc 0) × (((0 < length rest) × Fails ts) ⊎ (buf ≡ []))))
Forwards ts buf waiting = (rooms ts < length buf) ⊎ (buf ≡ [])
Forwards ts buf undefined = ⊥

sent_more-Forwards :
    (k : ℕ) (ts : List Turn) (bytes rest buf : List ℕ) (r : Run Sent)
    → bytes ++ rest ≡ buf
    → k ≡ length bytes
    → 0 < length rest
    → Forwards ts rest r
    → Forwards (ready k ∷ ts) buf (sent_more bytes r)
sent_more-Forwards k ts bytes rest buf (done r) e room more (left, f, codes) = (
  left,
  append_assoc bytes r.taken left ∙ ap (◌++◌ bytes) f ∙ e,
  elim codes [
    | inl all ↦ inl all
    | inr (minus, inl (some_left, fails)) ↦ inr (minus, inl (some_left, inr fails))
    | inr (minus, inr nothing) ↦ absurd (omega (arith, ap length nothing))
  ],
)
sent_more-Forwards k ts bytes rest buf waiting e room more f =
    let len : length bytes + length rest ≡ length buf =
      sym (length-append bytes rest) ∙ ap length e in
    elim f [ inl few ↦ inl (omega arith) | inr nothing ↦ absurd (omega (arith, ap length nothing)) ]
sent_more-Forwards k ts bytes rest buf undefined e room more f = f

nothing_sent :
    (k : ℕ) (ts : List Turn) (buf : List ℕ)
    → min k (length buf) ≡ 0
    → ((0 < length buf) × Fails (ready k ∷ ts)) ⊎ (buf ≡ [])
nothing_sent k ts [] e = inr refl
nothing_sent k ts (x ∷ xs) e = inl (omega arith, inl (omega arith))

-- Every call of SendSocket, on any connection: if it comes back then what the socket took is a
-- beginning of the buffer, and the result is 0 with all of it, or -1, with less than all and only
-- where a call of send failed or moved nothing, unless the buffer is empty. It waits, with a buffer
-- that is not empty, only if its calls have room for less than the buffer.
pub send_loop-Forwards : (ts : List Turn) (buf : List ℕ) → Forwards ts buf (send_loop ts buf)
unfolding send_loop
send_loop-Forwards [] [] = inr refl
send_loop-Forwards [] (x ∷ xs) = inl (omega arith)
send_loop-Forwards (ready k ∷ ts) buf =
    let j = min k (length buf) in
    elim (Bool-cases (j == length buf)) [
      | inl all ↦ rw all ([], append-nil buf, inl (refl, refl))
      | inr some_left ↦
          let ne : j ≢ length buf = ground arith in
          rw some_left (elim (Bool-cases (ltb 0 j)) [
            | inl progress ↦ rw progress (
                sent_more-Forwards k ts (take j buf) (drop j buf) buf _ (take-append-drop j buf)
                  (omega (arith, length-take j buf)) (omega (arith, length-drop j buf))
                  (send_loop-Forwards ts (drop j buf)))
            | inr ended ↦
                let nothing : j ≡ 0 = ground arith in
                rw ended (buf, refl, inr (refl, nothing_sent k ts buf nothing))
          ])
    ]
send_loop-Forwards (again ∷ ts) buf = send_loop-Forwards ts buf
send_loop-Forwards (broken ∷ ts) [] = ([], refl, inr (refl, inr refl))
send_loop-Forwards (broken ∷ ts) (x ∷ xs) = (x ∷ xs, refl, inr (refl, inl (omega arith, tt)))
