-- ===== src/Proto/C2c.antt =====
-- PICA_proto.h: the identifiers and the sizes of the messages between clients.
use pica_pica.Common.{ℕ}

abbrev pub c2cconnreq : ℕ
c2cconnreq = 204

abbrev pub directc2c_addrlist : ℕ
directc2c_addrlist = 11

abbrev pub directc2c_ipv4 : ℕ
directc2c_ipv4 = 160

abbrev pub directc2c_ipv6 : ℕ
directc2c_ipv6 = 161

abbrev pub directc2c_dns : ℕ
directc2c_dns = 162

abbrev pub directc2c_failed : ℕ
directc2c_failed = 12

abbrev pub directc2c_switch : ℕ
directc2c_switch = 13

abbrev pub msgutf8 : ℕ
msgutf8 = 48

abbrev pub msgok : ℕ
msgok = 64

abbrev pub sendfilerequest : ℕ
sendfilerequest = 80

abbrev pub acceptedfile : ℕ
acceptedfile = 81

abbrev pub deniedfile : ℕ
deniedfile = 82

abbrev pub filefragment : ℕ
filefragment = 83

abbrev pub filecontrol : ℕ
filecontrol = 84

abbrev pub filecontrol_void : ℕ
filecontrol_void = 0

abbrev pub filecontrol_pause : ℕ
filecontrol_pause = 1

abbrev pub filecontrol_resume : ℕ
filecontrol_resume = 2

abbrev pub filecontrol_cancel : ℕ
filecontrol_cancel = 3

abbrev pub filecontrol_ioerror : ℕ
filecontrol_ioerror = 4

abbrev pub c2cconnreq_size : ℕ
c2cconnreq_size = 4

abbrev pub directc2c_addrlist_item_ipv4_size : ℕ
directc2c_addrlist_item_ipv4_size = 7

abbrev pub directc2c_failed_size : ℕ
directc2c_failed_size = 4

abbrev pub directc2c_switch_size : ℕ
directc2c_switch_size = 4

abbrev pub msgok_size : ℕ
msgok_size = 4

abbrev pub acceptedfile_size : ℕ
acceptedfile_size = 4

abbrev pub deniedfile_size : ℕ
deniedfile_size = 4

abbrev pub filecontrol_size : ℕ
filecontrol_size = 4

abbrev pub c2cmsg_maxdatasize : ℕ
c2cmsg_maxdatasize = 65532

abbrev pub c2cmsg_maxfilenamesize : ℕ
c2cmsg_maxfilenamesize = 255

abbrev pub c2cproto_ver_high : ℕ
c2cproto_ver_high = 0

abbrev pub c2cproto_ver_low : ℕ
c2cproto_ver_low = 1
