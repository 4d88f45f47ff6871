-- ===== src/Main/Serving.antt =====
-- main.go: what holds of a program that has come to serve.
use file_upload.Prelude.{◌≡◌, none}
use file_upload.Prelude.Result.{Result}
use file_upload.Uploads.Heap.{Heap}
use file_upload.FileUpload.Life.{FileUpload}
use file_upload.Uploadable.Config.Validity.{active_with, IsPositive, InOrder}
use file_upload.Flags.UploadConfig.{UploadConfig}
use file_upload.Flags.UploadConfig.Acceptance.{FilesOk}
use file_upload.Main.{World}

module _ (world : World) where
  -- A configuration with which the program can serve.
  abbrev pub CanServe : UploadConfig → Type 0
  CanServe cfg =
      FilesOk world.glob cfg.files cfg.mode
      × IsPositive cfg.uploadable.period
      × InOrder cfg.uploadable.active_from cfg.uploadable.active_till
      × (active_with cfg.uploadable.active cfg.uploadable.active_from cfg.uploadable.active_till
          ≡ cfg.uploadable.active)

  -- What runs is made of the configuration: the pattern, the mode and the settings of the feature are
  -- those of the configuration, the uploads are those that were there, and the feature is active if
  -- it is set to be or has one of the two times.
  pub record Serves {ℓ} {U : Type ℓ} (heap : Heap) (cfg : UploadConfig) (f : FileUpload U)
      : Type 0 where
    pub files : f.files_glob ≡ cfg.files
    pub mode : f.mode ≡ cfg.mode
    pub settings : f.uploadable.feature.cfg ≡ cfg.uploadable
    pub uploads : f.uploadable.feature.heap ≡ heap
    pub waits : f.uploadable.feature.executor ≡ none
    pub active :
        f.uploadable.feature.state.active
        ≡ active_with cfg.uploadable.active cfg.uploadable.active_from cfg.uploadable.active_till
