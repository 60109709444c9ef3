-- ===== src/SyncFile/Receiving/Laws.antt =====
-- SyncRecvFile of tools/sync_file/file_operation/sync_file.cpp on a live connection.
use algo.Prelude.{
  ℕ, zero, suc, ◌+◌, ◌-◌, ◌*◌, ◌^◌, ◌≤◌, ◌<◌, min, ◌≡◌, refl, ◌∙◌, sym, ap, some, true, List, [],
  ◌∷◌, ◌++◌, append-nil, append_assoc, arith, length, take, drop, replicate, length-take,
  length-drop, length-append, length-replicate, take_all, drop_all, take-append, drop-append,
  take-append-drop, le→ltb_false,
}
use algo.SyncFile.Effects.{Conn, Supplies, Supplies-mono, Goes, Goes->>=, Goes-return, Goes-subst}
use algo.SyncFile.Bytes.{
  le_bytes, le_value, le_value-le_bytes, overlay, length-le_bytes, take-overlay,
}
use algo.SyncFile.Frames.{send_buff, recv_buff}
use algo.SyncFile.Frames.Laws.{frame, send_buff_live, recv_buff_live}
use algo.SyncFile.File.{
  SyncFileTool, Disk, open_out, Report, fresh, c_str, copied_name, init_write, write_file, parts,
  file_parts,
}
use algo.SyncFile.Sending.Laws.{pieces, transfer, file_parts_live}
use algo.SyncFile.Receiving.{recv_pieces, recv_into, sync_recv_file, copy_name}

-- A writer at the end of what it has written.
abbrev pub writer : List ℕ → List ℕ → SyncFileTool
writer name written = record { file_name = name; file_os = open_out written (length written) }

write_file_end :
    (name written got buff : List ℕ)
    → (write_file (writer name written) (overlay got buff) (length got)).0
      ≡ writer name (written ++ got)
unfolding write_file
write_file_end name written got buff =
    rw
      (
        take-overlay got buff,
        take_all (length written) written (omega arith),
        drop_all (length written + length got) written (omega arith),
        append-nil,
        length-append written got,
      )
      refl

same_end :
    (name : List ℕ) {w w' : List ℕ} {i i' t t' : ℕ}
    → w ≡ w'
    → i ≡ i'
    → t ≡ t'
    → ◌≡◌ {A = SyncFileTool × Report}
        (writer name w, record { index = i; sum = t })
        (writer name w', record { index = i'; sum = t' })
same_end name e f g = λ j. (writer name (e j), record { index = f j; sum = g j })

module _ (name : List ℕ) (split b : ℕ) where
  -- The frames of the pieces are read back and written one behind the other.
  pub recv_pieces_live :
      (n index sum c : ℕ) (body rest written buff : List ℕ) {k : Conn}
      → k.incoming ≡ pieces split n body ++ rest
      → length body ≤ n * split
      → n * split < length body + split
      → split < 2 ^ 63
      → length buff ≡ split
      → n * 8 + length body + b ≤ c
      → Supplies c k.turns
      → Goes
          (recv_pieces split n (writer name written) buff index sum)
          k
          b
          (writer name (written ++ body), record { index = index + n; sum = sum + length body })
          rest
          k.sent
  unfolding recv_pieces pieces
  recv_pieces_live zero index sum c [] rest written buff {k} e cover tight sm hb le s =
      Goes-subst (same_end name (sym (append-nil written)) (omega arith) (omega arith)) e refl (
        Goes-return (writer name written, record { index = index; sum = sum })
          (Supplies-mono b c k.turns (omega arith) s))
  recv_pieces_live zero index sum c (x ∷ body) rest written buff {k} e cover tight sm hb le s =
      absurd (omega arith)
  recv_pieces_live (suc n) index sum c body rest written buff {k} e cover tight sm hb le s =
      let got = take split body in
      let size : length got ≡ min split (length body) = omega (arith, length-take split body) in
      let left : length (drop split body) ≡ length body - split = length-drop split body in
      let whole : (written ++ got) ++ drop split body ≡ written ++ body =
        append_assoc written got (drop split body)
        ∙ ap (◌++◌ written) (take-append-drop split body) in
      Goes-subst
        (same_end name {i = index + 1 + n} {t = sum + length got + length (drop split body)} whole
          (omega arith) (omega arith))
        refl refl
        (Goes->>= (recv_buff buff) _
          (recv_buff_live (n * 8 + (length body - length got) + b) c s got
            (pieces split n (drop split body) ++ rest) buff (e ∙ append_assoc (frame got) _ rest)
            (omega arith) (omega arith) (omega arith) (omega arith))
          λ ts s1. rw (write_file_end name written got buff) (
            recv_pieces_live n (index + 1) (sum + length got)
              (n * 8 + (length body - length got) + b) (drop split body) rest (written ++ got)
              (replicate split 0) refl (omega arith) (omega arith) sm (length-replicate split 0)
              (omega arith) s1))

-- The array that `sprintf` fills.
abbrev pub file_buff : List ℕ → List ℕ
file_buff filename = overlay (copy_name filename ++ 0 ∷ []) (replicate 256 0)

-- The preconditions of a reception: the name with ".copy" fits its array, and is the path of a
-- file that can be written.
pub record IsReceivable (disk : Disk) (filename : List ℕ) (len : ℕ) : Type 0 where
  pub path : List ℕ
  pub named : 0 < len
  pub name_len : len ≤ length filename
  pub name_fits : length (copy_name filename) < 256
  pub name_ends : c_str (copied_name (file_buff filename) (length (copy_name filename))) ≡ some path
  pub may_write : disk.writable path ≡ true

init_write_live :
    {disk : Disk} {filename : List ℕ} {len : ℕ} (b : ℕ) {k : Conn}
    → IsReceivable disk filename len
    → Supplies b k.turns
    → Goes
        (init_write disk fresh (file_buff filename) (length (copy_name filename)))
        k
        b
        (writer (copied_name (file_buff filename) (length (copy_name filename))) [], true)
        k.incoming
        k.sent
unfolding init_write fresh
init_write_live {filename} {len} b {k} v s = record {
  turns = k.turns;
  live = s;
  runs =
      rw
        (
          le→ltb_false 256 (length (copy_name filename)) (omega (arith, v.name_fits)),
          v.name_ends,
          v.may_write,
        )
        refl;
}

-- The two lengths, as they are read from the array.
module _ (total split : ℕ) (p : total < 256 ^ 8) (q : split < 256 ^ 8) where
  infos_overlay :
      overlay (le_bytes 8 total ++ le_bytes 8 split) (replicate 16 0)
      ≡ le_bytes 8 total ++ le_bytes 8 split
  unfolding overlay
  infos_overlay =
      rw
        (drop_all {A = ℕ} (length (le_bytes 8 total ++ le_bytes 8 split)) (replicate 16 0) (
          omega (
            arith,
            length-append (le_bytes 8 total) (le_bytes 8 split),
            length-le_bytes 8 total,
            length-le_bytes 8 split,
          )))
        (append-nil _)

  infos_len :
      le_value (take 8 (overlay (le_bytes 8 total ++ le_bytes 8 split) (replicate 16 0))) ≡ total
  infos_len =
      rw
        (
          infos_overlay,
          take-append 8 (le_bytes 8 total) (le_bytes 8 split) (length-le_bytes 8 total),
        )
        (le_value-le_bytes 8 total p)

  infos_split :
      le_value (take 8 (drop 8 (overlay (le_bytes 8 total ++ le_bytes 8 split) (replicate 16 0))))
      ≡ split
  infos_split =
      rw
        (
          infos_overlay,
          drop-append 8 (le_bytes 8 total) (le_bytes 8 split) (length-le_bytes 8 total),
          take_all 8 (le_bytes 8 split) (omega (arith, length-le_bytes 8 split)),
        )
        (le_value-le_bytes 8 split q)

sync_recv_file_fits :
    (disk : Disk) (filename : List ℕ) (len : ℕ) (k : Conn)
    → length (copy_name filename) < 256
    → sync_recv_file disk filename len k ≡ recv_into disk filename len (file_buff filename) k
unfolding sync_recv_file
sync_recv_file_fits disk filename len k h =
    rw (le→ltb_false 256 (length (copy_name filename) + 1) (omega arith), sync_recv_file) refl

recv_into_live :
    {disk : Disk} {filename : List ℕ} {len : ℕ} (bytes rest : List ℕ) (b c : ℕ) {k : Conn}
    → IsReceivable disk filename len
    → length bytes + 2048 ≤ 2 ^ 42
    → k.incoming ≡ transfer bytes ++ rest
    → parts (length bytes) 2048 * 8 + length bytes + len + 32 + b ≤ c
    → Supplies c k.turns
    → Goes
        (recv_into disk filename len (file_buff filename))
        k
        b
        (
          (true, record { index = parts (length bytes) 2048; sum = length bytes }),
          writer (copied_name (file_buff filename) (length (copy_name filename))) bytes,
        )
        rest
        (k.sent ++ frame (take len filename))
unfolding recv_into transfer
recv_into_live {filename} {len} bytes rest b c {k} v sm e le s =
    let total = length bytes in
    let infos = le_bytes 8 total ++ le_bytes 8 2048 in
    let size : length infos ≡ 16 = omega (
      arith,
      length-append (le_bytes 8 total) (le_bytes 8 2048),
      length-le_bytes 8 total,
      length-le_bytes 8 2048,
    ) in
    let pieces_left : ℕ = parts total 2048 * 8 + total + b in
    let infos_left : ℕ = 24 + pieces_left in
    Goes->>= _ _ (init_write_live c v s) λ t1 s1.
      Goes->>= (send_buff filename len) _
        (send_buff_live infos_left c s1 filename len v.named v.name_len (omega arith))
        λ t2 s2.
          Goes->>= (recv_buff (replicate 16 0)) _
            (recv_buff_live pieces_left infos_left s2 infos
              (pieces 2048 (parts total 2048) bytes ++ rest) (replicate 16 0)
              (e ∙ append_assoc (frame infos) _ rest) (omega arith) (omega arith)
              (omega (arith, length-replicate {A = ℕ} 16 0)) (omega arith))
            λ t3 s3.
              rw
                (
                  infos_len total 2048 (omega arith) (omega arith),
                  infos_split total 2048 (omega arith) (omega arith),
                )
                (Goes->>= (file_parts total 2048) _
                  (file_parts_live total 2048 pieces_left (omega arith) (omega arith) (omega arith)
                    (omega arith) s3)
                  λ t4 s4.
                    Goes->>= _ _
                      (recv_pieces_live
                        (copied_name (file_buff filename) (length (copy_name filename))) 2048 b
                        (parts total 2048) 0 0 pieces_left bytes rest [] (replicate 2048 0) refl
                        (omega arith) (omega arith) (omega arith) (length-replicate {A = ℕ} 2048 0)
                        (omega arith) s4)
                      λ t5 s5. Goes-subst (ground arith) refl refl (
                        Goes-return
                          (
                            (true, record { index = 0 + parts total 2048; sum = 0 + total }),
                            writer (copied_name (file_buff filename) (length (copy_name filename)))
                                bytes,
                          )
                          s5))

-- On a live connection whose peer sends the transfer of `bytes`, SyncRecvFile asks for the file by
-- its name, reports success, prints the number of pieces and the length, leaves the bytes in the
-- file, and leaves what follows the transfer on the connection. The name must fit its array and be
-- writable, and the number of pieces must fit an int.
pub sync_recv_file_live :
    {disk : Disk} {filename : List ℕ} {len : ℕ} (bytes rest : List ℕ) (b c : ℕ) {k : Conn}
    → IsReceivable disk filename len
    → length bytes + 2048 ≤ 2 ^ 42
    → k.incoming ≡ transfer bytes ++ rest
    → parts (length bytes) 2048 * 8 + length bytes + len + 32 + b ≤ c
    → Supplies c k.turns
    → Goes
        (sync_recv_file disk filename len)
        k
        b
        (
          (true, record { index = parts (length bytes) 2048; sum = length bytes }),
          writer (copied_name (file_buff filename) (length (copy_name filename))) bytes,
        )
        rest
        (k.sent ++ frame (take len filename))
sync_recv_file_live {disk} {filename} {len} bytes rest b c {k} v sm e le s =
    let g = recv_into_live bytes rest b c v sm e le s in
    record {
      turns = g.turns;
      live = g.live;
      runs = sync_recv_file_fits disk filename len k v.name_fits ∙ g.runs;
    }
