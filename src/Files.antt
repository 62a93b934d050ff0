-- ===== src/Files.antt =====
-- infra/FileSystem.ts: the file system that the services are given, and what its comments promise.
pub mod Kept
pub mod Memory
use docker_claudebox.Base.{
  Bool, List, Option, Result, Text, [], after_prefix, err, false, if◌then◌else◌, nat_beq, none, ok,
  some, true, ℕ, ◌++◌, ◌∷◌, ◌≡◌, ◌≢◌,
}

-- A call returns or throws, and leaves a state in both cases.
abbrev pub Outcome : Type 0 → Type 0 → Type 0
Outcome A W = Result Text A × W

infixl 3 ◌>>->◌
unfoldable pub ◌>>->◌ :
    {A B : Type 0} {W : Type 0} → Outcome A W → (A → W → Outcome B W) → Outcome B W
(err thrown, w) >>-> next = (err thrown, w)
(ok a, w) >>-> next = next a w

pub data Done : Type 0 where
  done : Done

-- The calls of the interface; a file is written with the default mode.
pub record FileSystem (W : Type 0) : Type 0 where
  pub exists : Text → W → Bool
  pub is_directory : Text → W → Bool
  pub read_text_or_undefined : Text → W → Option Text
  pub list_dir : Text → W → Result Text (List Text)
  pub mkdir_recursive : Text → W → Outcome Done W
  pub move : Text → Text → W → Outcome Done W
  pub rm_dir_if_empty : Text → W → Outcome Done W
  pub chmod : Text → ℕ → W → Outcome Done W
  pub write_text_atomic : Text → Text → W → Outcome Done W
  pub write_text : Text → Text → W → Outcome Done W
  pub remove_file : Text → W → Outcome Done W
  pub append_text : Text → Text → W → Outcome Done W
  pub read_text : Text → W → Result Text Text
  pub mtime_ms : Text → W → Option ℕ
  pub stat_mode : Text → W → Option ℕ
  pub remove_dir_recursive : Text → W → Outcome Done W

-- What stands behind a directory's path in a path: nothing, or a slash and more.
abbrev pub at_or_below : Text → Option Text
at_or_below [] = some []
at_or_below (c ∷ rest) = if nat_beq c b'/' then some (c ∷ rest) else none

abbrev pub below_in : Option Text → Option Text
below_in none = none
below_in (some rest) = at_or_below rest

unfoldable pub below : Text → Text → Option Text
below dir path = below_in (after_prefix dir path)

-- The files after `src` has become `dst`.
abbrev pub moved_at : (Text → Option Text) → Text → Option Text → Option Text → Text → Option Text
moved_at files src (some rest) old path = files (src ++ rest)
moved_at files src none (some rest) path = none
moved_at files src none none path = files path

unfoldable pub moved : Text → Text → (Text → Option Text) → Text → Option Text
moved src dst files path = moved_at files src (below dst path) (below src path) path

-- The comments of the interface, on the files that can be read: a throw loses nothing, `move` never
-- overwrites and renames what stands at and below its source, and the other calls leave the other
-- files alone.
pub record IsLawful {W : Type 0} (fs : FileSystem W) : Type 0 where
  pub file-exists :
      (p c : Text) (w : W) → fs.read_text_or_undefined p w ≡ some c → fs.exists p w ≡ true
  pub directory-exists : (p : Text) (w : W) → fs.is_directory p w ≡ true → fs.exists p w ≡ true
  pub nothing_below :
      (d r : Text) (w : W)
      → fs.exists d w ≡ false
      → at_or_below r ≡ some r
      → fs.read_text_or_undefined (d ++ r) w ≡ none
  pub mkdir_recursive_keeps :
      (d p : Text) (w : W)
      → fs.read_text_or_undefined p (fs.mkdir_recursive d w).1 ≡ fs.read_text_or_undefined p w
  pub rm_dir_if_empty_keeps :
      (d p : Text) (w : W)
      → fs.read_text_or_undefined p (fs.rm_dir_if_empty d w).1 ≡ fs.read_text_or_undefined p w
  pub chmod_keeps :
      (d : Text) (mode : ℕ) (p : Text) (w : W)
      → fs.read_text_or_undefined p (fs.chmod d mode w).1 ≡ fs.read_text_or_undefined p w
  pub write_text_atomic_keeps :
      (q c p : Text) (w : W)
      → p ≢ q
      → fs.read_text_or_undefined p (fs.write_text_atomic q c w).1 ≡ fs.read_text_or_undefined p w
  pub write_text_atomic_stores :
      (p c : Text) (u : Done) (w w₁ : W)
      → fs.write_text_atomic p c w ≡ (ok u, w₁)
      → fs.read_text_or_undefined p w₁ ≡ some c
  pub move_throws :
      (src dst thrown : Text) (w w₁ : W)
      → fs.move src dst w ≡ (err thrown, w₁)
      → (p : Text) → fs.read_text_or_undefined p w₁ ≡ fs.read_text_or_undefined p w
  pub move_renames :
      (src dst : Text) (u : Done) (w w₁ : W)
      → fs.move src dst w ≡ (ok u, w₁)
      → (p : Text)
      → fs.read_text_or_undefined p w₁ ≡ moved src dst (λ q. fs.read_text_or_undefined q w) p
  pub move_refuses :
      (src dst : Text) (u : Done) (w w₁ : W)
      → fs.move src dst w ≡ (ok u, w₁)
      → (fs.exists dst w ≡ false) × (fs.exists src w₁ ≡ false)
