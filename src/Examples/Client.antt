-- ===== src/Examples/Client.antt =====
-- The client that uploads in parts, with a server that answers every post.
use filestore_hsz.Prelude.{
  ℕ, ◌≡◌, ◌≢◌, refl, Text, length, pos, List, [], ◌∷◌, map, none, ◌+◌, arith,
}
use filestore_hsz.Go.{ret, ok}
use filestore_hsz.Mpupload.Choose.{chunks_to_upload}
use filestore_hsz.Mpupload.Parts.{Job, Read, index_of}
use filestore_hsz.Mpupload.Transfer.{
  Post, State, state, Step, Steps, here, started, to_receive, upload_parts_specified,
  upload_parts_specified-chosen, transfer_finishes, transfer_waits,
}
use filestore_hsz.Mpupload.Transfer

-- The world counts the posts.
abbrev post : Post ℕ
post url body w = (ok body, w + 1)

abbrev sha1 : Text → Text
sha1 t = t

abbrev chunk : Read
chunk = record { chunk = b'h' ∷ b'i' ∷ []; error = none }

abbrev part : Job
part = (1, b'h' ∷ b'i' ∷ [])

upload_parts_specified-chosen_example :
    (js : List Job) × (upload_parts_specified {W = ℕ} none
        (chunks_to_upload (pos 2 ∷ []) (pos 5) (pos 3))
        (chunk ∷ chunk ∷ chunk ∷ [])
        0
      ≡ ret (ok (state js [] [] (length js) 0)))
    × (map index_of js ≡ chunks_to_upload (pos 2 ∷ []) (pos 5) (pos 3))
upload_parts_specified-chosen_example =
    upload_parts_specified-chosen {W = ℕ} (pos 2 ∷ []) 5 3 (chunk ∷ chunk ∷ chunk ∷ []) 0
      (omega arith) (omega arith)
      (
        (omega arith, omega arith, refl),
        ((omega arith, omega arith, refl), ((omega arith, omega arith, refl), tt)),
      )

-- One part, which has been started.
transfer_finishes_example :
    (m : ℕ) × (u : State ℕ) × Steps post sha1 [] (state [] (part ∷ []) [] 1 0) m u
    × (to_receive post sha1 [] u ≡ 0)
    × (1 + m ≡ 3)
transfer_finishes_example =
    transfer_finishes post sha1 [] (λ j w. (j.1, w + 1, refl)) (part ∷ []) 0 1
      (state [] (part ∷ []) [] 1 0) (Transfer.then here (started part))

-- Two indices are waited for, and one part is started.
transfer_waits_example : to_receive post sha1 [] (state [] (part ∷ []) [] 2 0) ≢ 0
transfer_waits_example =
    transfer_waits post sha1 [] (part ∷ []) 2 0 1 (state [] (part ∷ []) [] 2 0) (omega arith)
      (Transfer.then here (started part))
