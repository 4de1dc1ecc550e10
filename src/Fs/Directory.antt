-- ===== src/Fs/Directory.antt =====
-- src/uvw/fs.ipp: `scandir_next`, `closedir`, `readdir` and `readdir_sync` of `fs_req`.
use uvw.Prelude.{
  ℕ, Bool, true, false, not, Option, none, some, ℤ, eqb_ℤ, is_zero, if◌then◌else◌, ◌≡◌, refl,
}
use uvw.Prelude.{is_neg, eqb_ℤ_iff, ap, ◌∙◌, sym}
use uvw.Fs.{
  Entry, Libuv, FsRaw, Answer, flag, call, clean, ok, request_callback, uv_fs_closedir,
  uv_fs_readdir,
}
use uvw.Fs.Paths.{FsReq}

-- What `scandir_next` and `readdir_sync` return: a flag, and the type and the name of an entry.
pub record Found : Type 0 where
  pub found : Bool
  pub entry : Entry

module _ (libuv : Libuv) where
  -- `eof` is `UV_EOF`, `unknown` is `entry_type::UNKNOWN`.
  unfoldable pub scandir_next : (eof : ℤ) → (unknown : ℕ) → FsReq → Found × FsReq
  unfolding clean
  scandir_next eof unknown r =
      let b = clean libuv r.base in
      let (res, d) = libuv.scandir_next b.raw r.dirents in
      (
        if eqb_ℤ eof res
            then record { found = false; entry = record { type = unknown; name = none } }
            else record { found = true; entry = d },
        record { base = b; dirents = d },
      )

  unfoldable pub closedir : FsReq → FsReq
  unfolding call
  closedir r = record r {
    base = call libuv (uv_fs_closedir r.base.raw.ptr) (some request_callback) r.base;
  }

  unfoldable pub closedir_sync : FsReq → Answer × FsReq
  unfolding call
  closedir_sync r =
      let b = call libuv (uv_fs_closedir r.base.raw.ptr) none r.base in
      (flag (ok b), record r { base = b })

  -- `none` is a store through a null `dir`.
  unfoldable pub readdir : FsReq → Option FsReq
  unfolding call
  readdir r = elim r.base.raw.ptr [
    | none ↦ none
    | some dir ↦
        some
          (record r { base = call libuv (uv_fs_readdir (some dir)) (some request_callback) r.base })
  ]

  unfoldable pub readdir_sync : FsReq → Option (Found × FsReq)
  unfolding call
  readdir_sync r = elim r.base.raw.ptr [
    | none ↦ none
    | some dir ↦
        let c = uv_fs_readdir (some dir) in
        let b = call libuv c none r.base in
        let d = libuv.filled c (clean libuv r.base).raw r.dirents in
        some (
          record { found = not (is_zero b.raw.result); entry = d },
          record { base = b; dirents = d },
        )
  ]

  -- Where the cleanup of a request that did not fail frees its pointer and keeps its result, and
  -- `uv_fs_scandir_next` has nothing to return from such a request, `scandir_next` never finds an
  -- entry, whatever the scan before it found.
  pub scandir_next-clean :
      (eof : ℤ) (unknown : ℕ) (r : FsReq)
      → ((w : FsRaw) → (libuv.cleaned w).ptr ≡ none)
      → ((w : FsRaw) → (libuv.cleaned w).result ≡ w.result)
      → ((w : FsRaw) (d : Entry)
          → w.ptr ≡ none
          → is_neg w.result ≡ false
          → (libuv.scandir_next w d).0 ≡ eof)
      → is_neg r.base.raw.result ≡ false
      → ((scandir_next eof unknown r).0.found ≡ false)
        × ((scandir_next eof unknown r).0.entry.name ≡ none)
  unfolding scandir_next clean
  scandir_next-clean eof unknown r freed kept ends fine =
      let w = libuv.cleaned r.base.raw in
      let end = ends w r.dirents (freed r.base.raw) (ap is_neg (kept r.base.raw) ∙ fine) in
      let hit : eqb_ℤ eof (libuv.scandir_next w r.dirents).0 ≡ true = (eqb_ℤ_iff _ _).1 (sym end) in
      rw hit (refl, refl)
