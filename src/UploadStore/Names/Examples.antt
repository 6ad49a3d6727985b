-- ===== src/UploadStore/Names/Examples.antt =====
-- A name of the kind that clients send.
use holdfast.Base.{text}
use holdfast.UploadStore.Names.{sanitize_basename}
use holdfast.UploadStore.Names.Safety.{IsSafeName, sanitize_basename-IsSafeName}

sanitize_basename-IsSafeName_example : IsSafeName (sanitize_basename (text "../../etc/passwd"))
sanitize_basename-IsSafeName_example = sanitize_basename-IsSafeName (text "../../etc/passwd")
