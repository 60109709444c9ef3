-- ===== src/SyncFile/Client.antt =====
-- The client program of tools/sync_file/client/main.cpp behind its connection: the files that its
-- arguments name, one after the other.
use algo.Prelude.{
  ℕ, ◌+◌, ◌*◌, ◌≤◌, ◌≡◌, ◌^◌, refl, sym, ap, ◌∙◌, arith, List, [], ◌∷◌, ◌++◌, length, take,
  take_all, append-nil, append_assoc,
}
use algo.SyncFile.Effects.{
  M, Conn, ◌>>=◌, return, Supplies, Supplies-mono, Goes, Goes->>=, Goes-return, Goes-subst,
}
use algo.SyncFile.File.{SyncFileTool, Disk, Report, parts}
use algo.SyncFile.File
use algo.SyncFile.Frames.Laws.{frame}
use algo.SyncFile.Sending.Laws.{transfer}
use algo.SyncFile.Receiving.{sync_recv_file, copy_name}
use algo.SyncFile.Receiving.Laws.{IsReceivable, file_buff, writer, sync_recv_file_live}

-- The loop over `argv`. With the connection stand the tools as they are destroyed.
unfoldable pub get_files : Disk → List (List ℕ) → M (List SyncFileTool)
get_files disk [] = return []
get_files disk (name ∷ names) = do
  got ← sync_recv_file disk name (length name)
  others ← get_files disk names
  return (got.1 ∷ others)

abbrev pub default_name : List ℕ
default_name = b't' ∷ b'e' ∷ b's' ∷ b't' ∷ []

abbrev pub names_or_default : List (List ℕ) → List (List ℕ)
names_or_default [] = default_name ∷ []
names_or_default (name ∷ names) = name ∷ names

-- `main` behind InitClient, with the arguments behind the program's name.
unfoldable pub client_main : Disk → List (List ℕ) → M (List SyncFileTool)
unfolding get_files
client_main disk args = get_files disk (names_or_default args)

-- Files, by name and content.
abbrev pub Files : Type 0
Files = List (List ℕ × List ℕ)

abbrev pub names : Files → List (List ℕ)
names [] = []
names (f ∷ fs) = f.0 ∷ names fs

-- What the server sends, and what it is sent.
abbrev pub transfers : Files → List ℕ
transfers [] = []
transfers (f ∷ fs) = transfer f.1 ++ transfers fs

abbrev pub commands : Files → List ℕ
commands [] = []
commands (f ∷ fs) = frame f.0 ++ commands fs

-- The tools that have written the copies.
abbrev pub writers : Files → List SyncFileTool
writers [] = []
writers (f ∷ fs) =
    writer (File.copied_name (file_buff f.0) (length (copy_name f.0))) f.1 ∷ writers fs

abbrev pub AreReceivable : Disk → Files → Type 0
AreReceivable disk [] = Unit {0}
AreReceivable disk (f ∷ fs) =
    IsReceivable disk f.0 (length f.0) × (length f.1 + 2048 ≤ 2 ^ 42) × AreReceivable disk fs

-- Turns that make progress, enough for the transfers.
abbrev pub turns_for : Files → ℕ
turns_for [] = 0
turns_for (f ∷ fs) = parts (length f.1) 2048 * 8 + length f.1 + length f.0 + 32 + turns_for fs

-- On a live connection whose peer sends the transfers of the files one after the other, the
-- client asks for them by their names in order and leaves a copy of each, byte for byte.
pub get_files_live :
    (disk : Disk) (fs : Files) (rest : List ℕ) (b c : ℕ) {k : Conn}
    → AreReceivable disk fs
    → k.incoming ≡ transfers fs ++ rest
    → turns_for fs + b ≤ c
    → Supplies c k.turns
    → Goes (get_files disk (names fs)) k b (writers fs) rest (k.sent ++ commands fs)
unfolding get_files
get_files_live disk [] rest b c {k = k} v e le s =
    Goes-subst refl e (sym (append-nil k.sent))
      (Goes-return [] (Supplies-mono b c k.turns (omega arith) s))
get_files_live disk (f ∷ fs) rest b c {k = k} v e le s =
    let e' : k.incoming ≡ transfer f.1 ++ (transfers fs ++ rest) =
      e ∙ append_assoc (transfer f.1) (transfers fs) rest in
    let whole : k.sent ++ frame (take (length f.0) f.0) ≡ k.sent ++ frame f.0 =
      ap (λ x. k.sent ++ frame x) (take_all (length f.0) f.0 (omega arith)) in
    Goes-subst refl refl (append_assoc k.sent (frame f.0) (commands fs)) (
      Goes->>= (sync_recv_file disk f.0 (length f.0)) _
        (Goes-subst refl refl whole (
          sync_recv_file_live f.1 (transfers fs ++ rest) (turns_for fs + b) c v.0 v.1 e'
            (omega arith) s))
        λ ts s1.
          Goes->>= (get_files disk (names fs)) _
            (get_files_live disk fs rest b (turns_for fs + b) v.2 refl (omega arith) s1)
            λ ts' s2. Goes-return (writers (f ∷ fs)) s2)
