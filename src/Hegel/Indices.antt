-- ===== src/Hegel/Indices.antt =====
-- The listings of the hegel frontend agree with the handlers that take an index.
use tinkerbell_hegel.Prelude.{
  ℕ, zero, suc, ◌+◌, ◌^◌, ◌<◌, ◌≤◌, List, [], ◌∷◌, ◌≡◌, refl, ap, ◌∙◌, arith, some, length,
  get_elem?, lt→ltb,
}
use tinkerbell_hegel.Strings.{Str}
use tinkerbell_hegel.Strconv.{pos, itoa}
use tinkerbell_hegel.Strconv.RoundTrip.{atoi-itoa}
use tinkerbell_hegel.Errors.{Result, ok}
use tinkerbell_hegel.GinUtil.{string}
use tinkerbell_hegel.Hegel.Model.{K8sHardware, K8sHardwareDisk, Client}
use tinkerbell_hegel.Hegel.Handlers.{
  Context, line, list_indices, at_index, get_hardware, disk_handler, disk_index_handler,
  ssh_handler, ssh_index_handler,
}

module _ {ℓ} {A : Type ℓ} where
  get_elem?-list_indices :
      (xs : List A) (i k : ℕ)
      → i < length xs
      → get_elem? (list_indices xs k) i ≡ some (string 200 (line (itoa (k + i))))
  unfolding list_indices
  get_elem?-list_indices [] i k h = elim h [ ]
  get_elem?-list_indices (x ∷ xs) zero k h =
      ap (λ n. some (string 200 (line (itoa n)))) (omega arith)
  get_elem?-list_indices (x ∷ xs) (suc i) k h =
      get_elem?-list_indices xs i (suc k) (omega arith)
      ∙ ap (λ n. some (string 200 (line (itoa n)))) (omega arith)

  pub get_elem?-list_indices_zero :
      (xs : List A) (i : ℕ)
      → i < length xs
      → get_elem? (list_indices xs 0) i ≡ some (string 200 (line (itoa i)))
  get_elem?-list_indices_zero xs i h =
      get_elem?-list_indices xs i 0 h ∙ ap (λ n. some (string 200 (line (itoa n)))) (omega arith)

  pub length-list_indices : (xs : List A) (k : ℕ) → length (list_indices xs k) ≡ length xs
  unfolding list_indices
  length-list_indices [] k = refl
  length-list_indices (x ∷ xs) k = ap suc (length-list_indices xs (suc k))

  pub get_elem?-some : (xs : List A) (i : ℕ) → i < length xs → (x : A) × (get_elem? xs i ≡ some x)
  get_elem?-some [] i h = elim h [ ]
  get_elem?-some (x ∷ xs) zero h = (x, refl)
  get_elem?-some (x ∷ xs) (suc i) h = get_elem?-some xs i (omega arith)

  pub at_index-itoa : (xs : List A) (i : ℕ) → i < length xs → at_index xs (pos i) ≡ get_elem? xs i
  at_index-itoa xs i h = rw (lt→ltb i (length xs) h)

abbrev pub with_index : Context → Str → Context
with_index c s = record c { index_param = s }

module _ (client : Client) (unmarshal : Str → Result K8sHardware) (c : Context) (hw : K8sHardware)
    (found : get_hardware client unmarshal c.client_ip ≡ ok hw) where
  disk_handler-found : disk_handler client unmarshal c ≡ list_indices hw.metadata.instance_.disks 0
  unfolding disk_handler
  disk_handler-found = ground (arith, found)

  ssh_handler-found : ssh_handler client unmarshal c ≡ list_indices hw.metadata.instance_.ssh_keys 0
  unfolding ssh_handler
  ssh_handler-found = ground (arith, found)

  -- Where the hardware is found, the listing of disks has a line for each disk, in order, with its
  -- index; and the disk's own endpoint, asked for the index that the line spells, answers with that
  -- disk's device. There are at most 2 ^ 63 disks.
  pub disk_index_handler-disk_handler :
      (i : ℕ)
      → i < length hw.metadata.instance_.disks
      → length hw.metadata.instance_.disks ≤ 2 ^ 63
      → (disk : K8sHardwareDisk) × (get_elem? hw.metadata.instance_.disks i ≡ some disk)
        × (get_elem? (disk_handler client unmarshal c) i ≡ some (string 200 (line (itoa i))))
        × (length (disk_handler client unmarshal c) ≡ length hw.metadata.instance_.disks)
        × (disk_index_handler client unmarshal (with_index c (itoa i))
            ≡ string 200 (line disk.device) ∷ [])
  unfolding disk_index_handler
  disk_index_handler-disk_handler i h small =
      let disks = hw.metadata.instance_.disks in
      let (disk, e) = get_elem?-some disks i h in
      (
        disk,
        e,
        ap (λ l. get_elem? l i) disk_handler-found ∙ get_elem?-list_indices_zero disks i h,
        ap length disk_handler-found ∙ length-list_indices disks 0,
        ground (arith, found, atoi-itoa i (omega arith), at_index-itoa disks i h, e),
      )

  -- Where the hardware is found, the listing of SSH keys has a line for each key, in order, with
  -- its index; and the key's own endpoint, asked for the index that the line spells, answers with
  -- that key. There are at most 2 ^ 63 keys.
  pub ssh_index_handler-ssh_handler :
      (i : ℕ)
      → i < length hw.metadata.instance_.ssh_keys
      → length hw.metadata.instance_.ssh_keys ≤ 2 ^ 63
      → (key : Str) × (get_elem? hw.metadata.instance_.ssh_keys i ≡ some key)
        × (get_elem? (ssh_handler client unmarshal c) i ≡ some (string 200 (line (itoa i))))
        × (length (ssh_handler client unmarshal c) ≡ length hw.metadata.instance_.ssh_keys)
        × (ssh_index_handler client unmarshal (with_index c (itoa i)) ≡ string 200 (line key) ∷ [])
  unfolding ssh_index_handler
  ssh_index_handler-ssh_handler i h small =
      let ssh_keys = hw.metadata.instance_.ssh_keys in
      let (key, e) = get_elem?-some ssh_keys i h in
      (
        key,
        e,
        ap (λ l. get_elem? l i) ssh_handler-found ∙ get_elem?-list_indices_zero ssh_keys i h,
        ap length ssh_handler-found ∙ length-list_indices ssh_keys 0,
        ground (arith, found, atoi-itoa i (omega arith), at_index-itoa ssh_keys i h, e),
      )
