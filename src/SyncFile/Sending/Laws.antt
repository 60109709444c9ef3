-- ===== src/SyncFile/Sending/Laws.antt =====
-- SyncSendFile of tools/sync_file/file_operation/sync_file.cpp on a live connection.
use algo.Prelude.{
  ℕ, zero, suc, ◌+◌, ◌-◌, ◌*◌, ◌≤◌, ◌<◌, min, ◌≡◌, refl, ◌∙◌, sym, ap, List, [], ◌++◌, ==_ne, some,
  true, ◌^◌, lt→leb_false, le→ltb_false, append-nil, append_assoc, arith, length, take, drop,
  replicate, length-take, length-drop, length-replicate, drop-drop, take_all, length-append,
  drop-length-take,
}
use algo.SyncFile.Effects.{Conn, Supplies, Goes, Goes->>=, Goes-return, Goes-subst, Supplies-mono}
use algo.SyncFile.Bytes.{le_bytes, overlay, length-le_bytes, length-overlay, take-overlay}
use algo.SyncFile.Frames.{send_buff}
use algo.SyncFile.Frames.Laws.{frame, send_buff_live}
use algo.SyncFile.File.{
  SyncFileTool, Disk, open_in, Report, fresh, c_str, copied_name, init_read, parts, file_parts,
}
use algo.SyncFile.Sending.{send_pieces, sync_send_file}

-- The frames of `n` pieces of `split` bytes.
unfoldable pub pieces : ℕ → ℕ → List ℕ → List ℕ
pieces split zero bytes = []
pieces split (suc n) bytes = frame (take split bytes) ++ pieces split n (drop split bytes)

-- A reader of `bytes` at position `p`.
abbrev pub reader : List ℕ → List ℕ → ℕ → SyncFileTool
reader name bytes p = record { file_name = name; file_os = open_in bytes p }

module _ (name bytes : List ℕ) (split b : ℕ) where
  -- Two ways to count come to the same end.
  same_end :
      {p p' i i' t t' : ℕ}
      → p ≡ p'
      → i ≡ i'
      → t ≡ t'
      → ◌≡◌ {A = SyncFileTool × Report}
          (reader name bytes p, record { index = i; sum = t })
          (reader name bytes p', record { index = i'; sum = t' })
  same_end e f g = λ j. (reader name bytes (e j), record { index = f j; sum = g j })

  pub send_pieces_live :
      (n p index sum c : ℕ) (buff : List ℕ) {k : Conn}
      → p ≤ length bytes
      → length bytes - p ≤ n * split
      → n * split < length bytes - p + split
      → length buff ≡ split
      → n * 8 + (length bytes - p) + b ≤ c
      → Supplies c k.turns
      → Goes
          (send_pieces split n (reader name bytes p) buff index sum)
          k
          b
          (
            reader name bytes (length bytes),
            record { index = index + n; sum = sum + (length bytes - p) },
          )
          k.incoming
          (k.sent ++ pieces split n (drop p bytes))
  unfolding send_pieces pieces
  send_pieces_live zero p index sum c buff {k} hp cover tight hb le s =
      Goes-subst (same_end (omega arith) (omega arith) (omega arith)) refl (sym (append-nil k.sent))
        (Goes-return (reader name bytes p, record { index = index; sum = sum })
          (Supplies-mono b c k.turns (omega arith) s))
  send_pieces_live (suc n) p index sum c buff {k} hp cover tight hb le s =
      let got = take split (drop p bytes) in
      let size : length got ≡ min split (length bytes - p) =
        omega (arith, length-take split (drop p bytes), length-drop p bytes) in
      let next : drop (p + length got) bytes ≡ drop split (drop p bytes) =
        sym (drop-drop p (length got) (p + length got) bytes refl)
        ∙ drop-length-take split (drop p bytes) in
      let rest = length bytes - p in
      let body : take (length got) (overlay got buff) ≡ got = take-overlay got buff in
      Goes-subst (same_end refl (omega arith) (omega arith)) refl
        (append_assoc k.sent (frame got) (pieces split n (drop split (drop p bytes))))
        (Goes->>= (send_buff (overlay got buff) (length got)) _
          (Goes-subst refl refl (ap (λ x. k.sent ++ frame x) body) (
            send_buff_live (n * 8 + (rest - length got) + b) c s (overlay got buff) (length got)
              (omega arith) (omega (arith, length-overlay got buff)) (omega arith)))
          λ ts s1. Goes-subst refl refl (ap (λ x. (k.sent ++ frame got) ++ pieces split n x) next) (
            send_pieces_live n (p + length got) (index + 1) (sum + length got)
              (n * 8 + (rest - length got) + b) (replicate split 0) (omega arith) (omega arith)
              (omega arith) (length-replicate split 0) (omega arith) s1))

-- The bytes that a transfer of a file puts on the connection.
unfoldable pub transfer : List ℕ → List ℕ
unfolding pieces
transfer bytes =
    frame (le_bytes 8 (length bytes) ++ le_bytes 8 2048)
    ++ pieces 2048 (parts (length bytes) 2048) bytes

-- The preconditions of a transfer: the name fits its array and is the path of a file, whose number
-- of pieces fits an int.
pub record IsSendable (disk : Disk) (filename : List ℕ) (len : ℕ) (bytes : List ℕ) : Type 0 where
  pub path : List ℕ
  pub name_fits : len ≤ 256
  pub name_ends : c_str (copied_name filename len) ≡ some path
  pub found : disk.contents path ≡ some bytes
  pub small : length bytes + 2048 ≤ 2 ^ 42

pub file_parts_live :
    (len split b : ℕ) {k : Conn}
    → 0 < split
    → split < 2 ^ 63
    → len < 2 ^ 63
    → parts len split < 2 ^ 31
    → Supplies b k.turns
    → Goes (file_parts len split) k b (parts len split) k.incoming k.sent
unfolding file_parts
file_parts_live len split b {k} p q r t s = record {
  turns = k.turns;
  live = s;
  runs =
      rw (==_ne split 0 (omega arith), lt→leb_false _ _ q, lt→leb_false _ _ r, lt→leb_false _ _ t)
        refl;
}

init_read_live :
    {disk : Disk} {filename : List ℕ} {len : ℕ} {bytes : List ℕ} (b : ℕ) {k : Conn}
    → IsSendable disk filename len bytes
    → Supplies b k.turns
    → Goes
        (init_read disk fresh filename len)
        k
        b
        (reader (copied_name filename len) bytes 0, true)
        k.incoming
        k.sent
unfolding init_read fresh
init_read_live {filename} {len} {bytes} b {k} v s = record {
  turns = k.turns;
  live = s;
  runs = rw (le→ltb_false 256 len v.name_fits, v.name_ends, v.found) refl;
}

-- On a live connection SyncSendFile sends the whole transfer of a sendable file, reports success,
-- and prints the number of pieces and the length of the file.
pub sync_send_file_live :
    {disk : Disk} {filename : List ℕ} {len : ℕ} {bytes : List ℕ} (b c : ℕ) {k : Conn}
    → IsSendable disk filename len bytes
    → parts (length bytes) 2048 * 8 + length bytes + 24 + b ≤ c
    → Supplies c k.turns
    → Goes
        (sync_send_file disk filename len)
        k
        b
        (true, record { index = parts (length bytes) 2048; sum = length bytes })
        k.incoming
        (k.sent ++ transfer bytes)
unfolding sync_send_file transfer
sync_send_file_live {filename} {len} {bytes} b c {k} v le s =
    let total = length bytes in
    let infos = le_bytes 8 total ++ le_bytes 8 2048 in
    let size : length infos ≡ 16 = omega (
      arith,
      length-append (le_bytes 8 total) (le_bytes 8 2048),
      length-le_bytes 8 total,
      length-le_bytes 8 2048,
    ) in
    let after_infos : ℕ = parts total 2048 * 8 + total + b in
    Goes-subst refl refl (append_assoc k.sent (frame infos) _) (
      Goes->>= _ _ (init_read_live c v s) λ t1 s1.
        Goes->>= (send_buff infos 16) _
          (Goes-subst refl refl (ap (λ x. k.sent ++ frame x) (take_all 16 infos (omega arith)))
            (send_buff_live after_infos c s1 infos 16 (omega arith) (omega arith) (omega arith)))
          λ t2 s2.
            Goes->>= (file_parts total 2048) _
              (file_parts_live total 2048 after_infos (omega arith) (omega arith)
                (omega (arith, v.small)) (omega (arith, v.small)) s2)
              λ t3 s3.
                Goes->>= _ _
                  (send_pieces_live (copied_name filename len) bytes 2048 b (parts total 2048) 0 0 0
                    after_infos (replicate 2048 0) (omega arith) (omega arith) (omega arith)
                    (length-replicate {A = ℕ} 2048 0) (omega arith) s3)
                  λ t4 s4. Goes-subst (ground arith) refl refl (
                    Goes-return
                      (true, record { index = 0 + parts total 2048; sum = 0 + (total - 0) }) s4))
