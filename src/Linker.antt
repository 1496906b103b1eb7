-- ===== src/Linker.antt =====
-- internal/linker/linker.go: the *arr files of a torrent, by its hash in lower case. The store's
-- answer is given.
use triagearr.Base.{ℕ, ◌≡◌, refl, ap, List, [], ◌∷◌, ◌++◌, arith}
use triagearr.Base.Text.{Text, codes, to_lower_byte, to_lower}
use triagearr.Types.{Hash, Result, ok, err, Link}

links_or_error : Result (List Link) → Result (List Link)
links_or_error (err e) = err (record e { message = codes "linker: " ++ e.message })
links_or_error (ok ls) = ok ls

-- `Links`.
unfoldable pub links : (Hash → Result (List Link)) → Hash → Result (List Link)
unfolding links_or_error
links links_by_hash h = links_or_error (links_by_hash (to_lower h))

to_lower_byte-twice : (c : ℕ) → to_lower_byte (to_lower_byte c) ≡ to_lower_byte c
to_lower_byte-twice c = ground arith

to_lower-twice : (s : Text) → to_lower (to_lower s) ≡ to_lower s
unfolding to_lower
to_lower-twice [] = refl
to_lower-twice (c ∷ s) = ground (arith, to_lower-twice s, to_lower_byte-twice c)

-- A hash in any case finds what its lower case finds.
pub links-to_lower :
    (links_by_hash : Hash → Result (List Link)) (h : Hash)
    → links links_by_hash (to_lower h) ≡ links links_by_hash h
unfolding links
links-to_lower links_by_hash h =
    ap (λ (k : Hash). links_or_error (links_by_hash k)) (to_lower-twice h)
