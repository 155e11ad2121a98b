-- ===== src/Indirect/Paths.antt =====
-- Where upload, download and the cleanup look for the data of a claim.
use crane_lib.Base.{ℕ, zero, suc, String, true, false, Option, none, some, List, [], ◌∷◌}
use crane_lib.Base.{ok, ◌≡◌, refl, sym, ◌∙◌, ok-injective, Option-cases, inl, inr}
use crane_lib.Indirect.{
  Options, Pod, Claim, validate, created, build_pod, build_rclone_command, remote_path, cloud_path,
  upload, download, cleanup_cloud_data,
}

-- The word of a command at an index, from 0.
abbrev pub word : List String → ℕ → Option String
word [] n = none
word (w ∷ rest) zero = some w
word (w ∷ rest) (suc n) = word rest n

-- The options have both fields, and the client has made the pod that is returned.
created-ok :
    (create : Pod → Option String) (what : String) (o : Options) (pod result : Pod)
    → created create what o pod ≡ ok result
    → (result ≡ pod) × (validate o ≡ none) × (create pod ≡ none)
unfolding created
created-ok create what o pod result h = elim (Option-cases (validate o)) [
  | inr (e, invalid) ↦ let never = rw (invalid, created) at h in cc
  | inl valid ↦ elim (Option-cases (create pod)) [
    | inr (e, failed) ↦ let never = rw (valid, failed, created) at h in cc
    | inl made ↦
        (sym (ok-injective pod result (sym (rw (valid, created) (rw made refl)) ∙ h)), valid, made)
  ]
]

-- If the upload of a claim gives a pod, and the download into a claim, asked for the first one's
-- namespace and name, gives a pod too, then the download reads the very remote path that the upload
-- writes, and each has the volume of its own claim at the other end: the first from the mount path of
-- the first claim, the second to that of the other. Both pods run in the namespaces of their claims
-- with the same secret.
pub upload-download :
    (at_source at_destination : Pod → Option String) (o : Options) (source destination : Claim)
    (up down : Pod)
    → upload at_source o source ≡ ok up
    → download at_destination o destination source.namespace source.name ≡ ok down
    → (word up.command 3 ≡ word down.command 2)
      × (word up.command 2 ≡ some "/data")
      × (word down.command 3 ≡ some "/data")
      × (up.claim_name ≡ some source.name)
      × (down.claim_name ≡ some destination.name)
      × (up.namespace ≡ source.namespace)
      × (down.namespace ≡ destination.namespace)
      × (up.secret_name ≡ down.secret_name)
unfolding upload download build_pod build_rclone_command remote_path cloud_path
upload-download at_source at_destination o source destination up down uploads downloads =
    let (up_is, _, _) = created-ok at_source "upload" o _ up uploads in
    let (down_is, _, _) = created-ok at_destination "download" o _ down downloads in
    rw (up_is, down_is) (refl, refl, refl, refl, refl, refl, refl, refl)

-- If the upload of a claim and the cleanup of its data both give pods, and the options ask for no
-- encryption, then the cleanup empties the very remote path that the upload writes.
pub upload-cleanup_cloud_data :
    (at_source at_cleanup : Pod → Option String) (o : Options) (source : Claim)
    (namespace pvc_name : String) (up down : Pod)
    → o.encrypt ≡ false
    → upload at_source o source ≡ ok up
    → cleanup_cloud_data at_cleanup o namespace pvc_name source.namespace source.name ≡ ok down
    → word up.command 3 ≡ word down.command 4
unfolding upload cleanup_cloud_data build_pod build_rclone_command remote_path
upload-cleanup_cloud_data at_source at_cleanup o source namespace pvc_name up down plain uploads
      cleans =
    let (up_is, _, _) = created-ok at_source "upload" o _ up uploads in
    let (down_is, _, _) = created-ok at_cleanup "cloud cleanup" o _ down cleans in
    rw (up_is, down_is, plain) refl

-- With encryption the uploads of any two claims write the same remote path.
pub upload-encrypted :
    (create : Pod → Option String) (o : Options) (one other : Claim) (first second : Pod)
    → o.encrypt ≡ true
    → upload create o one ≡ ok first
    → upload create o other ≡ ok second
    → word first.command 3 ≡ word second.command 3
unfolding upload build_pod build_rclone_command remote_path
upload-encrypted create o one other first second encrypts uploads again =
    let (first_is, _, _) = created-ok create "upload" o _ first uploads in
    let (second_is, _, _) = created-ok create "upload" o _ second again in
    rw (first_is, second_is, encrypts) refl
