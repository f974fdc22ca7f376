-- ===== src/Header/Bytes.antt =====
-- Reading back the memory image of a header.
use esp_hosted.Prelude.{ℕ, ◌≡◌, List, some, arith}
use esp_hosted.Header.{Header, IsHeader, put_header, get_header}

-- Every header whose fields fit their widths is read back from its memory image as it was.
pub get_header-put_header :
    (h : Header) (rest : List ℕ) → IsHeader h → get_header (put_header h rest) ≡ some h
unfolding get_header put_header
get_header-put_header h rest v = ground arith
