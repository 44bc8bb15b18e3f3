-- ===== src/Pcap/Reads.antt =====
-- Reading at a position of a file what stands there: `Cursor` of backend/src/pcapio/pcap_reader.cpp
-- against the words that `mergePcaps` writes.
use avb_introspection.Base.{
  ℕ, ◌+◌, ◌-◌, ◌%◌, ◌^◌, ◌≡◌, refl, sym, ap, ◌∙◌, true, false, some, List, ◌++◌, arith, length,
  length-drop, drop, drop-add, drop-append,
}
use avb_introspection.Pcap.{has, u16, u32, word16, word32}
use avb_introspection.Pcap.Merge.{bytes16, bytes32}

-- The file has the list from the position on.
abbrev pub At : List ℕ → ℕ → List ℕ → Type 0
At file pos xs = drop pos file ≡ xs

pub At-length :
    (file : List ℕ) (pos : ℕ) (xs : List ℕ) → At file pos xs → length file - pos ≡ length xs
At-length file pos xs a = sym (length-drop pos file) ∙ ap length a

pub At-append :
    (file : List ℕ) (pos : ℕ) (xs ys : List ℕ)
    → At file pos (xs ++ ys)
    → At file (pos + length xs) ys
At-append file pos xs ys a =
    drop-add pos (length xs) file ∙ ap (drop (length xs)) a ∙ drop-append xs ys

word32-bytes32 : (v : ℕ) (rest : List ℕ) → word32 false (bytes32 v ++ rest) ≡ v % 2 ^ 32
unfolding word32 bytes32
word32-bytes32 v rest = omega arith

pub u32-bytes32 :
    (file : List ℕ) (pos v : ℕ) (rest : List ℕ)
    → At file pos (bytes32 v ++ rest)
    → u32 false file pos ≡ some (v % 2 ^ 32, pos + 4)
unfolding u32
u32-bytes32 file pos v rest a =
    let inside : has 4 file pos ≡ true =
      unfold bytes32 in ground (arith, At-length file pos (bytes32 v ++ rest) a) in
    rw (inside, a, word32-bytes32 v rest) refl

pub At-bytes32 :
    (file : List ℕ) (pos v : ℕ) (rest : List ℕ)
    → At file pos (bytes32 v ++ rest)
    → At file (pos + 4) rest
unfolding bytes32
At-bytes32 file pos v rest a = At-append file pos (bytes32 v) rest a

pub u16-bytes16 :
    (file : List ℕ) (pos v : ℕ) (rest : List ℕ)
    → At file pos (bytes16 v ++ rest)
    → u16 false file pos ≡ some (v % 2 ^ 16, pos + 2)
unfolding u16 word16 bytes16
u16-bytes16 file pos v rest a =
    let inside : has 2 file pos ≡ true = ground (arith, At-length file pos (bytes16 v ++ rest) a) in
    rw (inside, a) (ground arith)

pub At-bytes16 :
    (file : List ℕ) (pos v : ℕ) (rest : List ℕ)
    → At file pos (bytes16 v ++ rest)
    → At file (pos + 2) rest
unfolding bytes16
At-bytes16 file pos v rest a = At-append file pos (bytes16 v) rest a
