-- ===== src/Wue/Literals.antt =====
-- platform/linux/wue.c: the literal texts of the answer file.
use winafi.Prelude.{◌++◌}
use winafi.Prelude.Text.{CString, codes}

unfoldable pub xml_head : CString
xml_head =
    codes "<?xml version=\"1.0\" encoding=\"utf-8\"?>\n"
    ++ (codes "<unattend xmlns=\"urn:schemas-microsoft-com:unattend\">\n")

unfoldable pub hide_before : CString
hide_before =
    codes "        <RunSynchronousCommand wcm:action=\"add\">\n" ++ (codes "          <Order>")

unfoldable pub hide_after : CString
hide_after =
    codes "</Order>\n"
    ++ (codes "          <Description>Winafi: block Windows Setup from installing to "
        ++ (codes "the USB media</Description>\n"
            ++ (codes "          <Path>powershell.exe -NoProfile -ExecutionPolicy Bypass -Com"
                ++ (codes "mand \"&amp; { Get-Disk | Where-Object { $_.BusType -eq 'USB' } | ForE"
                    ++ (codes
                          "ach-Object { Set-Disk -Number $_.Number -IsReadOnly $true -ErrorAction"
                        ++ (codes
                              " SilentlyContinue }; 65..90 | ForEach-Object { $L=[char]$_; $r=&quot;$"
                            ++ (codes
                                  "L`:\\&quot;; if ((Test-Path &quot;$r`sources\\install.wim&quot;) -or ("
                                ++ (codes
                                      "Test-Path &quot;$r`sources\\install.esd&quot;) -or (Test-Path &quot;$r"
                                    ++ (codes
                                          "`sources\\install.swm&quot;) -or (Test-Path &quot;$r`autounattend.xml&"
                                        ++ (codes
                                              "quot;)) { $n=(Get-Partition -DriveLetter $L -ErrorAction SilentlyConti"
                                            ++ (codes
                                                  "nue).DiskNumber; if ($null -ne $n) { Set-Disk -Number $n -IsReadOnly $"
                                                ++ (codes
                                                      "true -ErrorAction SilentlyContinue } } } }\"</Path>\n"
                                                    ++ (codes
                                                        "        </RunSynchronousCommand>\n")))))))))))))

unfoldable pub winpe_before : CString
winpe_before =
    codes "  <settings pass=\"windowsPE\">\n"
    ++ (codes "    <component name=\"Microsoft-Windows-Setup\" processorArchitecture="
        ++ (codes "\""))

unfoldable pub winpe_after : CString
winpe_after =
    codes "\"\n"
    ++ (codes "      language=\"neutral\" xmlns:wcm=\"http://schemas.microsoft.com/WM"
        ++ (codes "IConfig/2002/State\"\n"
            ++ (codes "      xmlns:xsi=\"http://www.w3.org/2001/XMLSchema-instance\"\n"
                ++ (codes "      publicKeyToken=\"31bf3856ad364e35\" versionScope=\"nonSxS\">\n"
                    ++ (codes "      <UserData>\n"
                        ++ (codes "        <AcceptEula>true</AcceptEula>\n"
                            ++ (codes "        <ProductKey><Key /></ProductKey>\n"
                                ++ (codes "      </UserData>\n"))))))))

unfoldable pub run_before : CString
run_before = codes "      <RunSynchronous>\n"

unfoldable pub bypass_before : CString
bypass_before =
    codes "        <RunSynchronousCommand wcm:action=\"add\">\n" ++ (codes "          <Order>")

unfoldable pub bypass_between : CString
bypass_between =
    codes "</Order>\n" ++ (codes "          <Path>reg add HKLM\\SYSTEM\\Setup\\LabConfig /v ")

unfoldable pub bypass_after : CString
bypass_after =
    codes " /t REG_DWORD /d 1 /f</Path>\n" ++ (codes "        </RunSynchronousCommand>\n")

unfoldable pub run_after : CString
run_after = codes "      </RunSynchronous>\n"

unfoldable pub settings_end : CString
settings_end = codes "    </component>\n" ++ (codes "  </settings>\n")

unfoldable pub offline_before : CString
offline_before =
    codes "  <settings pass=\"offlineServicing\">\n"
    ++ (codes "    <component name=\"Microsoft-Windows-PartitionManager\" processorAr"
        ++ (codes "chitecture=\""))

unfoldable pub offline_after : CString
offline_after =
    codes "\"\n"
    ++ (codes "      language=\"neutral\" publicKeyToken=\"31bf3856ad364e35\" version"
        ++ (codes "Scope=\"nonSxS\">\n"
            ++ (codes "      <SanPolicy>4</SanPolicy>\n"
                ++ (codes "    </component>\n" ++ (codes "  </settings>\n")))))

unfoldable pub oobe_before : CString
oobe_before =
    codes "  <settings pass=\"oobeSystem\">\n"
    ++ (codes "    <component name=\"Microsoft-Windows-Shell-Setup\" processorArchite"
        ++ (codes "cture=\""))

unfoldable pub oobe_after : CString
oobe_after =
    codes "\"\n"
    ++ (codes "      language=\"neutral\" publicKeyToken=\"31bf3856ad364e35\" version"
        ++ (codes "Scope=\"nonSxS\">\n" ++ (codes "      <OOBE>\n")))

unfoldable pub no_account : CString
no_account =
    codes "        <HideOnlineAccountScreens>true</HideOnlineAccountScreens>\n"
    ++ (codes "        <SkipMachineOOBE>true</SkipMachineOOBE>\n"
        ++ (codes "        <SkipUserOOBE>true</SkipUserOOBE>\n"))

unfoldable pub no_data : CString
no_data = codes "        <ProtectYourPC>3</ProtectYourPC>\n"

unfoldable pub oobe_end : CString
oobe_end = codes "      </OOBE>\n"

unfoldable pub user_before : CString
user_before =
    codes "      <UserAccounts>\n"
    ++ (codes "        <LocalAccounts>\n"
        ++ (codes "          <LocalAccount wcm:action=\"add\" xmlns:wcm=\"http://schemas."
            ++ (codes "microsoft.com/WMIConfig/2002/State\">\n" ++ (codes "            <Name>"))))

unfoldable pub user_between : CString
user_between = codes "</Name>\n" ++ (codes "            <DisplayName>")

unfoldable pub user_after : CString
user_after =
    codes "</DisplayName>\n"
    ++ (codes "            <Group>Administrators</Group>\n"
        ++ (codes "            <Password><Value></Value><PlainText>true</PlainText></Pass"
            ++ (codes "word>\n"
                ++ (codes "          </LocalAccount>\n"
                    ++ (codes "        </LocalAccounts>\n" ++ (codes "      </UserAccounts>\n"))))))

unfoldable pub qol : CString
qol =
    codes "      <FirstLogonCommands>\n"
    ++ (codes "        <SynchronousCommand wcm:action=\"add\" xmlns:wcm=\"http://sche"
        ++ (codes "mas.microsoft.com/WMIConfig/2002/State\">\n"
            ++ (codes "          <Order>1</Order>\n"
                ++ (codes "          <CommandLine>reg add HKCU\\Software\\Microsoft\\Windows\\Cur"
                    ++ (codes
                          "rentVersion\\Explorer\\Advanced /v Start_AccountNotifications /t REG_D"
                        ++ (codes "WORD /d 0 /f</CommandLine>\n"
                            ++ (codes "        </SynchronousCommand>\n"
                                ++ (codes "      </FirstLogonCommands>\n"))))))))

unfoldable pub xml_end : CString
xml_end = codes "</unattend>\n"
