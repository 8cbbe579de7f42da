-- ===== src/Fields/MultiFab.antt =====
-- What the code uses of amrex::MultiFab, with its components as fields on the grid.
use hipace.Prelude.{ℕ, ◌+◌, ◌≤◌, ◌<◌, ◌≡◌, ◌⊎◌}

-- Reals R, multifabs M, and fields on the grid F, one for each component.
pub record MultiFabs (R M F : Type 0) : Type 0 where
  pub component : M → ℕ → F
  pub plus : F → F → F
  -- `copy dst src srccomp dstcomp numcomp` is MultiFab::Copy, and `add` with the same arguments is
  -- MultiFab::Add; they return the new destination.
  pub copy : M → M → ℕ → ℕ → ℕ → M
  pub add : M → M → ℕ → ℕ → ℕ → M
  pub component-copy_in :
      (dst src : M) (srccomp dstcomp numcomp i : ℕ)
      → i < numcomp
      → component (copy dst src srccomp dstcomp numcomp) (dstcomp + i) ≡ component src (srccomp + i)
  pub component-copy_out :
      (dst src : M) (srccomp dstcomp numcomp c : ℕ)
      → (c < dstcomp) ⊎ (dstcomp + numcomp ≤ c)
      → component (copy dst src srccomp dstcomp numcomp) c ≡ component dst c
  pub component-add_one_in :
      (dst src : M) (srccomp dstcomp : ℕ)
      → component (add dst src srccomp dstcomp 1) dstcomp
        ≡ plus (component dst dstcomp) (component src srccomp)
  pub component-add_one_out :
      (dst src : M) (srccomp dstcomp c : ℕ)
      → (c < dstcomp) ⊎ (dstcomp < c)
      → component (add dst src srccomp dstcomp 1) c ≡ component dst c
