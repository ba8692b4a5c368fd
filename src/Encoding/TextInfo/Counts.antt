-- ===== src/Encoding/TextInfo/Counts.antt =====
-- fileops.go: the counts of `textInfo` against the lines of the file.
use remote_cli.Encoding.TextInfo.{TextInfo}
