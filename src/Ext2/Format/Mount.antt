-- ===== src/Ext2/Format/Mount.antt =====
-- A formatted disk can be mounted.
use rpi_os_cfs_ext.Base.Bytes.{Bytes, zeros, memcpy}
use rpi_os_cfs_ext.Disk.{Disk, sector_read}
use rpi_os_cfs_ext.Ext2.Format.Root.{IsFormatted}

module _ (d : Disk) (f : IsFormatted d) (sb gd : Bytes) where
  read_sb : Bytes
  read_sb = memcpy sb 0 (sector_read d 0 0 0 zeros) 86

  read_gd : Bytes
  read_gd = memcpy gd 0 (sector_read d 0 1 0 zeros) 32
