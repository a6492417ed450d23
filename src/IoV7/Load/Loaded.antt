-- ===== src/IoV7/Load/Loaded.antt =====
-- A whole image of turbovec/src/io_v7.rs loads.
use turbovec.Common.{ℕ, Bool, List}
use turbovec.IoV7.Header.{SyncSource, geo_of}
use turbovec.IoV7.Full.{write_image}
use turbovec.IoV7.Full.Laid.{IsImage}
use turbovec.IoV7.Load.{Superblock}
use turbovec.IoV7.Load.Fields.{IsLoadable}

module _ (codebook : ℕ → ℕ → List ℕ × List ℕ) (calibration_ok : List ℕ → List ℕ → Bool)
    (src : SyncSource) (nonce : ℕ) (i : IsImage src)
    (v : IsLoadable codebook calibration_ok src) where
  abbrev image : List ℕ
  image = write_image src 0 nonce

  abbrev pub fresh_superblock : Superblock
  fresh_superblock = record {
    geo = geo_of src;
    nonce = nonce;
    tqplus_shift = src.tqplus_shift;
    tqplus_scale = src.tqplus_scale;
  }
