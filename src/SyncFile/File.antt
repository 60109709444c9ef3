-- ===== src/SyncFile/File.antt =====
-- SyncFileTool of tools/sync_file/file_operation: one file sent or received in numbered pieces.

use algo.Prelude.{
  ℕ, ◌+◌, ◌-◌, ◌/◌, ◌^◌, Bool, true, false, not, ◌||◌, Option, none, some, List, [], ◌∷◌, ◌++◌,
  ◌==◌, if◌then◌else◌, leb, ltb, length, take, drop, replicate,
}
use algo.SyncFile.Effects.{M, undefined, return}
use algo.SyncFile.Bytes.{overlay}

-- A std::fstream: the bytes of the file, and the position in them.
pub data Stream : Type 0 where
  closed : Stream
  open_in : List ℕ → ℕ → Stream
  open_out : List ℕ → ℕ → Stream

pub record SyncFileTool : Type 0 where
  pub file_name : List ℕ
  pub file_os : Stream

unfoldable pub fresh : SyncFileTool
fresh = record { file_name = replicate 256 0; file_os = closed }

abbrev pub is_open : Stream → Bool
is_open closed = false
is_open (open_in bytes p) = true
is_open (open_out bytes p) = true

-- The files that can be opened for reading, by path, and the paths that can be written.
pub record Disk : Type 0 where
  pub contents : List ℕ → Option (List ℕ)
  pub writable : List ℕ → Bool

-- The C string at the start of an array, if it ends there.
unfoldable pub c_str : List ℕ → Option (List ℕ)
c_str [] = none
c_str (b ∷ bs) = if b == 0 then some [] else elim (c_str bs) [ none ↦ none | some r ↦ some (b ∷ r) ]

-- memset and memcpy on `file_name_`, and the path that `open` reads there.
abbrev pub copied_name : List ℕ → ℕ → List ℕ
copied_name file_name len = overlay (take len file_name) (replicate 256 0)

abbrev pub opened_in : Option (List ℕ) → Stream → Stream
opened_in (some bytes) closed = open_in bytes 0
opened_in none closed = closed
opened_in o (open_in bytes p) = open_in bytes p
opened_in o (open_out bytes p) = open_out bytes p

abbrev pub opened_out : Bool → Stream → Stream
opened_out true closed = open_out [] 0
opened_out false closed = closed
opened_out o (open_in bytes p) = open_in bytes p
opened_out o (open_out bytes p) = open_out bytes p

-- A name longer than the array, or with no room for its end, is undefined behaviour.
unfoldable pub init_read : Disk → SyncFileTool → List ℕ → ℕ → M (SyncFileTool × Bool)
init_read disk tool file_name len c =
    if ltb 256 len then undefined else elim (c_str (copied_name file_name len)) [
      | none ↦ undefined
      | some path ↦
          let os = opened_in (disk.contents path) tool.file_os in
          return (record { file_name = copied_name file_name len; file_os = os }, is_open os) c
    ]

unfoldable pub init_write : Disk → SyncFileTool → List ℕ → ℕ → M (SyncFileTool × Bool)
init_write disk tool file_name len c =
    if ltb 256 len then undefined else elim (c_str (copied_name file_name len)) [
      | none ↦ undefined
      | some path ↦
          let os = opened_out (disk.writable path) tool.file_os in
          return (record { file_name = copied_name file_name len; file_os = os }, is_open os) c
    ]

abbrev pub file_size : Stream → ℕ
file_size closed = 0
file_size (open_in bytes p) = length bytes
file_size (open_out bytes p) = length bytes

-- The length, and the stream at its beginning again.
abbrev pub rewound : Stream → Stream
rewound closed = closed
rewound (open_in bytes p) = open_in bytes 0
rewound (open_out bytes p) = open_out bytes 0

unfoldable pub get_file_size : SyncFileTool → ℕ × SyncFileTool
get_file_size tool = (file_size tool.file_os, record tool { file_os = rewound tool.file_os })

-- The bytes that a read of `len` gives, and the stream behind them.
abbrev pub bytes_read : Stream → ℕ → List ℕ
bytes_read closed len = []
bytes_read (open_in bytes p) len = take len (drop p bytes)
bytes_read (open_out bytes p) len = []

abbrev pub after_read : Stream → ℕ → Stream
after_read closed len = closed
after_read (open_in bytes p) len = open_in bytes (p + length (take len (drop p bytes)))
after_read (open_out bytes p) len = open_out bytes p

-- Returns the buffer, the new `*len`, the tool, and the result.
unfoldable pub read_file : SyncFileTool → List ℕ → ℕ → (List ℕ × ℕ) × (SyncFileTool × Bool)
read_file tool buff len =
    let got = bytes_read tool.file_os len in
    (
      (overlay got buff, length got),
      (record tool { file_os = after_read tool.file_os len }, not (length got == 0)),
    )

abbrev pub after_write : Stream → List ℕ → Stream
after_write closed new = closed
after_write (open_in bytes p) new = open_in bytes p
after_write (open_out bytes p) new =
    open_out (take p bytes ++ (new ++ drop (p + length new) bytes)) (p + length new)

unfoldable pub write_file : SyncFileTool → List ℕ → ℕ → SyncFileTool × Bool
write_file tool buff len =
    (record tool { file_os = after_write tool.file_os (take len buff) }, true)

-- `std::ceil((double)file_len / file_split_len)` as an int, from two int64_t bit patterns. Exact
-- as long as the lengths are below 2^53. A zero or negative split gives the array `buff` no valid
-- size, and a count that does not fit an int, or is negative, runs the loop out of its range.
abbrev pub parts : ℕ → ℕ → ℕ
parts len split = (len + split - 1) / split

unfoldable pub file_parts : ℕ → ℕ → M ℕ
file_parts len split c =
    if split == 0 || leb (2 ^ 63) split || leb (2 ^ 63) len || leb (2 ^ 31) (parts len split)
    then undefined
    else return (parts len split) c

-- What the last line of a transfer prints: the pieces and the bytes.
pub record Report : Type 0 where
  pub index : ℕ
  pub sum : ℕ
