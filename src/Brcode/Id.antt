-- ===== src/Brcode/Id.antt =====
-- The EMV field ids of internal/brcode/brcode.go.
use pixkb.Base.{Bytes, codes}

abbrev pub payload_format : Bytes
payload_format = codes "00"

abbrev pub initiation_point : Bytes
initiation_point = codes "01"

abbrev pub merchant_account : Bytes
merchant_account = codes "26"

abbrev pub merchant_category : Bytes
merchant_category = codes "52"

abbrev pub currency : Bytes
currency = codes "53"

abbrev pub amount : Bytes
amount = codes "54"

abbrev pub country : Bytes
country = codes "58"

abbrev pub merchant_name : Bytes
merchant_name = codes "59"

abbrev pub merchant_city : Bytes
merchant_city = codes "60"

abbrev pub additional_data : Bytes
additional_data = codes "62"

abbrev pub crc : Bytes
crc = codes "63"

abbrev pub gui : Bytes
gui = codes "00"

abbrev pub pix_key : Bytes
pix_key = codes "01"

abbrev pub pix_url : Bytes
pix_url = codes "25"

abbrev pub pix_descr : Bytes
pix_descr = codes "02"

abbrev pub reference_label : Bytes
reference_label = codes "05"

abbrev pub pix_gui : Bytes
pix_gui = codes "br.gov.bcb.pix"
