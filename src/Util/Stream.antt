-- ===== src/Util/Stream.antt =====
-- util/util.go, `Sha1Stream`: a digest that is fed piece by piece. A hash of crypto/sha1 is the bytes
-- that have been written to it.
use filestore_hsz.Prelude.{◌≡◌, refl, ap, ◌∙◌, Text, List, [], ◌∷◌, ◌++◌, Option, none, some}
use filestore_hsz.Go.{Exit, ret, panic}
use filestore_hsz.Util.{digest}

-- The field `_sha1`, nil at first.
abbrev pub Sha1Stream : Type 0
Sha1Stream = Option Text

unfoldable pub update : Text → Sha1Stream → Sha1Stream
update piece none = some piece
update piece (some written) = some (written ++ piece)

-- `Sum` on a stream that was never updated reads through a nil interface.
unfoldable pub sum : (Text → Text) → Sha1Stream → Exit Text
sum sha1 none = panic
sum sha1 (some written) = ret (digest sha1 written)

unfoldable pub update_all : List Text → Sha1Stream → Sha1Stream
update_all [] s = s
update_all (p ∷ pieces) s = update_all pieces (update p s)

abbrev pub concat : List Text → Text
concat [] = []
concat (p ∷ pieces) = p ++ concat pieces

pub append_assoc : (a b c : Text) → (a ++ b) ++ c ≡ a ++ (b ++ c)
append_assoc [] b c = refl
append_assoc (x ∷ a) b c = ap (λ (t : Text). x ∷ t) (append_assoc a b c)

pub append_none : (a : Text) → a ++ [] ≡ a
append_none [] = refl
append_none (x ∷ a) = ap (λ (t : Text). x ∷ t) (append_none a)

update_all_lem :
    (pieces : List Text) (written : Text)
    → update_all pieces (some written) ≡ some (written ++ concat pieces)
unfolding update_all update
update_all_lem [] written = rw (append_none written) refl
update_all_lem (p ∷ pieces) written =
    update_all_lem pieces (written ++ p)
    ∙ ap (λ (t : Text). some t) (append_assoc written p (concat pieces))

-- A stream that is fed at least one piece gives the digest of the pieces put together.
pub sum-update_all :
    (sha1 : Text → Text) (p : Text) (pieces : List Text)
    → sum sha1 (update_all (p ∷ pieces) none) ≡ ret (digest sha1 (p ++ concat pieces))
unfolding sum update_all update
sum-update_all sha1 p pieces = rw (update_all_lem pieces p) refl
