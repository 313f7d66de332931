-- ===== src/Ple/Sidecar.antt =====
-- runtime-src/qwen4_exp_ple_table.py: the sidecar that says which checkpoint a table file holds. Paths,
-- file names and type names are of a type `S` with equality; `realpath` is the operating system's. The
-- directory is the state of the sidecar's file and of its temporary file. A field of the JSON object
-- has the type that `ple_sidecar_write` gives it, or is missing.
use sglang_flashnext_nvfp4kv.Prelude.{
  ℕ, Bool, true, false, ◌&&◌, List, [], ◌∷◌, Option, none, some, Eq, ◌==◌, nat_eq, list_eq,
  if◌then◌else◌, not, Dict, lookup, contains, keys,
}

-- What `json.load` gives.
pub record Payload (S : Type 0) : Type 0 where
  pub model_path : Option S
  pub table_bytes : Option ℕ
  pub table_shape : Option (List ℕ)
  pub table_dtype : Option S
  pub sources : Option (Dict S (List ℕ))

pub data Loaded (S : Type 0) : Type 0 where
  unreadable : Loaded S
  malformed : Loaded S
  not_a_dict : Loaded S
  loaded_dict : Payload S → Loaded S

-- A table's identity, and the stat fingerprint of each source file.
pub record Table (S : Type 0) : Type 0 where
  pub expected_bytes : ℕ
  pub shape : List ℕ
  pub dtype : S
  pub model : S
  pub fingerprints : Dict S (List ℕ)

-- The sidecar's file and `sidecar + ".tmp"`.
pub record Directory (S : Type 0) : Type 0 where
  pub sidecar : Loaded S
  pub temporary : Loaded S

-- `sc.get(k, default)`.
abbrev pub or_default {ℓ} : {A : Type ℓ} → Option A → A → A
or_default none d = d
or_default (some a) d = a

-- `sc.get(k) == v`: a missing key is None, which no value equals.
abbrev pub same_value : {A : Type 0} ⦃i : Eq A⦄ → Option A → A → Bool
same_value none v = false
same_value (some a) v = a == v

unfoldable pub last_of {ℓ} : {A : Type ℓ} → A → List A → A
last_of a [] = a
last_of a (b ∷ bs) = last_of b bs

module _ {S : Type 0} ⦃e : Eq S⦄ where
  unfoldable pub subset : List S → List S → Bool
  subset [] ys = true
  subset (x ∷ xs) ys = contains x ys && subset xs ys

  -- The loop over the current fingerprints.
  unfoldable pub all_recorded : Dict S (List ℕ) → Dict S (List ℕ) → Bool
  all_recorded recorded [] = true
  all_recorded recorded ((name, fp) ∷ rest) =
      or_default (lookup name recorded) [] == fp && all_recorded recorded rest

  unfoldable pub sources_match : Dict S (List ℕ) → Dict S (List ℕ) → Bool
  unfolding subset all_recorded
  sources_match recorded fps =
      if subset (keys recorded) (keys fps) && subset (keys fps) (keys recorded)
      then all_recorded recorded fps
      else false

  -- `ple_sidecar_is_valid`; `size` is the table file's, none where `getsize` raises.
  unfoldable pub is_valid : (S → S) → Loaded S → Option ℕ → Table S → Bool
  unfolding sources_match
  is_valid realpath unreadable size t = false
  is_valid realpath malformed size t = false
  is_valid realpath not_a_dict size t = false
  is_valid realpath (loaded_dict sc) size t =
      if not (same_value sc.table_bytes t.expected_bytes)
      then false
      else if not (or_default sc.table_shape [] == t.shape)
      then false
      else if not (same_value sc.table_dtype t.dtype)
      then false
      else if not (same_value sc.model_path (realpath t.model))
      then false
      else if not (same_value size t.expected_bytes)
      then false
      else sources_match (or_default sc.sources []) t.fingerprints

  -- The payload of `ple_sidecar_write`.
  unfoldable pub payload : (S → S) → Table S → Payload S
  payload realpath t = record {
    model_path = some (realpath t.model);
    table_bytes = some t.expected_bytes;
    table_shape = some t.shape;
    table_dtype = some t.dtype;
    sources = some t.fingerprints;
  }

  -- The directory after each of the write's steps: the temporary file opened and truncated, dumped,
  -- and renamed over the sidecar.
  unfoldable pub write_steps : (S → S) → Table S → Directory S → List (Directory S)
  unfolding payload
  write_steps realpath t d =
      record d { temporary = malformed }
      ∷ record d { temporary = loaded_dict (payload realpath t) }
      ∷ record { sidecar = loaded_dict (payload realpath t); temporary = unreadable }
      ∷ []

  -- `ple_sidecar_write`.
  unfoldable pub sidecar_write : (S → S) → Table S → Directory S → Directory S
  unfolding write_steps last_of
  sidecar_write realpath t d = last_of d (write_steps realpath t d)
