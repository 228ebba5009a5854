-- ===== src/Domain/Files.antt =====
-- src/aedifex/domain/files.py: the formats the acquisition accepts, and the extensions they have.
use aedifex.Prelude.{List, [], ◌∷◌}
use aedifex.Prelude.Text.{Text, codes}

pub data FileFormat : Type 0 where
  pdf : FileFormat
  xlsx : FileFormat
  xls : FileFormat
  docx : FileFormat
  doc : FileFormat
  csv : FileFormat
  json : FileFormat
  xml : FileFormat
  html : FileFormat
  zip : FileFormat
  png : FileFormat
  jpeg : FileFormat
  tiff : FileFormat

-- `EXTENSIONS_BY_FORMAT`, a first extension and the others
abbrev pub extensions_of : FileFormat → Text × List Text
extensions_of pdf = (codes ".pdf", [])
extensions_of xlsx = (codes ".xlsx", [])
extensions_of xls = (codes ".xls", [])
extensions_of docx = (codes ".docx", [])
extensions_of doc = (codes ".doc", [])
extensions_of csv = (codes ".csv", [])
extensions_of json = (codes ".json", [])
extensions_of xml = (codes ".xml", [])
extensions_of html = (codes ".html", codes ".htm" ∷ [])
extensions_of zip = (codes ".zip", [])
extensions_of png = (codes ".png", [])
extensions_of jpeg = (codes ".jpg", codes ".jpeg" ∷ [])
extensions_of tiff = (codes ".tif", codes ".tiff" ∷ [])

abbrev pub canonical_extension : FileFormat → Text
canonical_extension file_format = (extensions_of file_format).0
